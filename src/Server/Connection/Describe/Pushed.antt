-- ===== src/Server/Connection/Describe/Pushed.antt =====
-- A key frame pushed to a path of src/server/rtsp_server.cpp, and the DESCRIBE of the path after it.
use rtsp_sdk.Common.{
  ℕ, ◌<◌, ◌^◌, ◌≡◌, ◌≢◌, refl, ap, ◌∙◌, Bool, true, false, ◌||◌, some, List, [], ◌∷◌, ◌++◌, All,
  arith, Bool-cases, inl, inr,
}
use rtsp_sdk.Common.Bits.{low_bits}
use rtsp_sdk.Common.Bytes.{at, IsByte}
use rtsp_sdk.Text.Chars.{Text, Lacks}
use rtsp_sdk.Text.Search.{same, same→≡, is_empty}
use rtsp_sdk.Text.Dict.{lookup, lookup-put_self}
use rtsp_sdk.Text.Numbers.{ℤ}
use rtsp_sdk.Rtp.Frame.{h264}
use rtsp_sdk.Rtp.Nalu.AnnexB.{IsNalu, annex_b}
use rtsp_sdk.Rtsp.Request.{Request}
use rtsp_sdk.Rtsp.Response.{Response, create_describe, set_header, set_body, set_content_type}
use rtsp_sdk.Server.Config.{PathConfig}
use rtsp_sdk.Server.Url.{extract_path}
use rtsp_sdk.Server.Paths.{Server, MediaPath, broadcast_frame, put_path, count_frame}
use rtsp_sdk.Server.Paths.Extract.{
  assign_if_changed, take_h264_unit, take_units, auto_extract_h264, refresh_h264, push_data_at,
  push_h264_data, frame_of,
}
use rtsp_sdk.Server.Paths.Broadcast.{push_to_all-paths}
use rtsp_sdk.Server.Paths.Units.{annex_b_units-annex_b}
use rtsp_sdk.Server.Connection.{Env, State, send_response, on_server}
use rtsp_sdk.Server.Connection.Describe.{
  describe_sdp, describe_path, handle_describe, parse_announced,
}
use rtsp_sdk.Server.Connection.Describe.Announced.{config_of, parse_announced-describe_sdp}

-- An SPS, a PPS, and a unit that is neither.
pub record IsKeyFrame (sps pps picture : List ℕ) : Type 0 where
  pub units : All IsNalu (sps ∷ pps ∷ picture ∷ [])
  pub sps_bytes : All IsByte sps
  pub pps_bytes : All IsByte pps
  pub sps_kind : low_bits (at sps 0) 5 ≡ 7
  pub pps_kind : low_bits (at pps 0) 5 ≡ 8
  pub not_sps : low_bits (at picture 0) 5 ≢ 7
  pub not_pps : low_bits (at picture 0) 5 ≢ 8

nal_some : (u : List ℕ) → IsNalu u → is_empty u ≡ false
unfolding is_empty
nal_some [] h = absurd (omega (arith, h.0))
nal_some (c ∷ u) h = refl

-- Changed or not, the set is the one that was seen.
assign-seen : (old new : List ℕ) → is_empty new ≡ false → (assign_if_changed old new).0 ≡ new
unfolding assign_if_changed
assign-seen old new h = elim (Bool-cases (same old new)) [
  | inl y ↦ rw (h, y) (same→≡ old new y)
  | inr n ↦ rw (h, n) refl
]

take_sps :
    (c : PathConfig) (u : List ℕ)
    → IsNalu u
    → low_bits (at u 0) 5 ≡ 7
    → (take_h264_unit c u).0 ≡ record c { sps = u }
unfolding take_h264_unit
take_sps c u h e =
    let some_byte = nal_some u h in
    rw (some_byte, e) (ap (λ v. record c { sps = v }) (assign-seen c.sps u some_byte))

take_pps :
    (c : PathConfig) (u : List ℕ)
    → IsNalu u
    → low_bits (at u 0) 5 ≡ 8
    → (take_h264_unit c u).0 ≡ record c { pps = u }
unfolding take_h264_unit
take_pps c u h e =
    let some_byte = nal_some u h in
    rw (some_byte, e) (ap (λ v. record c { pps = v }) (assign-seen c.pps u some_byte))

take_other :
    (c : PathConfig) (u : List ℕ)
    → low_bits (at u 0) 5 ≢ 7
    → low_bits (at u 0) 5 ≢ 8
    → (take_h264_unit c u).0 ≡ c
unfolding take_h264_unit
take_other c u h k = ground arith

take_one :
    (c d : PathConfig) (u : List ℕ) (us : List (List ℕ)) (b : Bool)
    → (take_h264_unit c u).0 ≡ d
    → (x : Bool) × (take_units take_h264_unit c (u ∷ us) b ≡ take_units take_h264_unit d us x)
unfolding take_units
take_one c d u us b e = (
  (take_h264_unit c u).1 || b,
  ap (λ y. take_units take_h264_unit y us ((take_h264_unit c u).1 || b)) e,
)

module _ (sps pps picture : List ℕ) (k : IsKeyFrame sps pps picture) where
  abbrev key_frame : List ℕ
  key_frame = annex_b (sps ∷ pps ∷ picture ∷ [])

  abbrev with_sets : PathConfig → PathConfig
  with_sets c = record c { sps = sps; pps = pps }

  taken :
      (c : PathConfig)
      → (take_units take_h264_unit c (sps ∷ pps ∷ picture ∷ []) false).0 ≡ with_sets c
  unfolding take_units
  taken c =
      let c1 : PathConfig = record c { sps = sps } in
      let (b1, e1) =
        take_one c c1 sps (pps ∷ picture ∷ []) false (take_sps c sps k.units.0 k.sps_kind) in
      let (b2, e2) =
        take_one c1 (with_sets c) pps (picture ∷ []) b1 (take_pps c1 pps k.units.1.0 k.pps_kind) in
      let (b3, e3) =
        take_one (with_sets c) (with_sets c) picture [] b2
          (take_other (with_sets c) picture k.not_sps k.not_pps) in
      ap (λ x. x.0) (e1 ∙ (e2 ∙ e3))

  refreshed : (c : PathConfig) → refresh_h264 c key_frame true ≡ with_sets c
  unfolding refresh_h264 auto_extract_h264
  refreshed c =
      ap (λ us. (take_units take_h264_unit c us false).0)
        (annex_b_units-annex_b (sps ∷ pps ∷ picture ∷ []) k.units)
      ∙ taken c

  -- The path after the push.
  pushed_path :
      (p : Text) (pts : ℕ) (m : MediaPath) (w : Server)
      → lookup p w.paths ≡ some m
      → lookup p (push_h264_data p key_frame pts true w).0.paths
        ≡ some (record m {
          config = with_sets m.config;
          latest_frame = some (frame_of h264 key_frame pts true);
        })
  unfolding push_h264_data push_data_at broadcast_frame put_path count_frame
  pushed_path p pts m w h =
      rw (h, refreshed m.config)
        (ap (lookup p) (push_to_all-paths (frame_of h264 key_frame pts true) m.sessions _)
          ∙ lookup-put_self p _ w.paths)

  described_body :
      (env : Env) (r : Request) (cseq : ℤ) (st : State) (m : MediaPath)
      → lookup (extract_path r.path) st.server.paths ≡ some m
      → (resp : Response) × ((handle_describe env r cseq st).replies ≡ st.replies ++ (resp ∷ []))
        × (resp.body ≡ describe_sdp env m.config)
  unfolding handle_describe describe_path send_response create_describe set_header set_body
      set_content_type
  described_body env r cseq st m h = rw h (_, refl, refl)

  nal_there : (u : List ℕ) → IsNalu u → u ≢ []
  nal_there [] h = absurd (omega (arith, h.0))
  nal_there (c ∷ u) h = λ e. cc

  -- A key frame with an SPS and a PPS is pushed to an H.264 path with a positive size of 32
  -- bits; then a
  -- DESCRIBE of the path is answered by a description from which the size of the path and just
  -- these two sets are read, to the byte, whatever sets the path had before.
  pub handle_describe-push_h264_data :
      (env : Env) (r : Request) (cseq : ℤ) (st : State) (m : MediaPath) (pts : ℕ) (q : Text)
      → lookup (extract_path r.path) st.server.paths ≡ some m
      → m.config.codec ≡ h264
      → (0 < m.config.width) × (m.config.width < 2 ^ 32)
      → (0 < m.config.height) × (m.config.height < 2 ^ 32)
      → Lacks 10 env.local_ip
      → (resp : Response) × ((handle_describe env r cseq (
            on_server
              (λ w. (push_h264_data (extract_path r.path) key_frame pts true w).0)
              st)).replies
          ≡ st.replies ++ (resp ∷ []))
        × (parse_announced q resp.body ≡ some (config_of q (with_sets m.config), 96))
  unfolding on_server
  handle_describe-push_h264_data env r cseq st m pts q h e w t ip =
      let now = on_server (λ x. (push_h264_data (extract_path r.path) key_frame pts true x).0) st in
      let (resp, replies, body) =
        described_body env r cseq now _ (pushed_path (extract_path r.path) pts m st.server h) in
      (
        resp,
        replies,
        ap (parse_announced q) body
            ∙ parse_announced-describe_sdp env q (with_sets m.config) e (nal_there sps k.units.0)
                (nal_there pps k.units.1.0) k.sps_bytes k.pps_bytes w t ip,
      )
