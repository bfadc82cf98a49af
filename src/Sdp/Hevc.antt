-- ===== src/Sdp/Hevc.antt =====
-- What `SdpParser` of src/rtsp-common/sdp.cpp reads from an H.265 description of `SdpBuilder`: the
-- three parameter sets in the line of the format.
pub mod RoundTrip
use rtsp_sdk.Common.{
  ◌≡◌, ◌≢◌, refl, sym, ap, ◌∙◌, none, some, [], ◌∷◌, ◌++◌, append-nil, All, arith,
}
use rtsp_sdk.Text.Chars.{Text, codes, Lacks, is_space, to_lower}
use rtsp_sdk.Text.Search.{starts_with, find}
use rtsp_sdk.Text.Patterns.{literal, many, search, is_part_char}
use rtsp_sdk.Text.Match.{
  IsCode, many-Within, literal-append, literal-Lacks, literal-behind, search-Lacks, search-behind,
  search_first,
}
use rtsp_sdk.Sdp.Parser.{MediaInfo, fmtp_in, h264_pattern, set_pattern}
use rtsp_sdk.Sdp.Attributes.{IsCodes-parts}

IsCodes-Lacks : (s : Text) → All IsCode s → Lacks b'-' s
IsCodes-Lacks [] h = tt
IsCodes-Lacks (c ∷ s) h = (h.0.1, IsCodes-Lacks s h.1)

-- A pattern that begins with a key of the form `sprop-...` does not start in a set.
set-behind :
    (k t rest : Text)
    → Lacks b'-' t
    → set_pattern (codes "sprop" ++ (b'-' ∷ k)) (t ++ (b';' ∷ rest)) ≡ none
unfolding set_pattern to_lower
set-behind k t rest h = rw (literal-behind (codes "sprop") k t rest (ground arith) h) refl

h264-behind : (t rest : Text) → Lacks b'-' t → h264_pattern (t ++ (b';' ∷ rest)) ≡ none
unfolding h264_pattern to_lower
h264-behind t rest h =
    rw (literal-behind (codes "sprop") (codes "parameter-sets=") t rest (ground arith) h) refl

set-last : (k t : Text) → Lacks b'-' t → set_pattern (codes "sprop" ++ (b'-' ∷ k)) t ≡ none
unfolding set_pattern
set-last k t h = rw (literal-Lacks (codes "sprop") k t h) refl

h264-last : (t : Text) → Lacks b'-' t → h264_pattern t ≡ none
unfolding h264_pattern
h264-last t h = rw (literal-Lacks (codes "sprop") (codes "parameter-sets=") t h) refl

-- A set is read up to a ';' or the end.
set_pattern-key :
    (key s rest : Text)
    → s ≢ []
    → All IsCode s
    → set_pattern key (key ++ (s ++ (b';' ∷ rest))) ≡ some s
unfolding set_pattern is_part_char is_space
set_pattern-key key s rest n h =
    rw
      (
        literal-append key (s ++ (b';' ∷ rest)),
        many-Within is_part_char s (b';' ∷ rest) n (IsCodes-parts s h) refl,
      )
      refl

set_pattern-key_last : (key s : Text) → s ≢ [] → All IsCode s → set_pattern key (key ++ s) ≡ some s
unfolding set_pattern
set_pattern-key_last key s n h =
    let whole : many is_part_char s ≡ some (s, []) =
      ap (many is_part_char) (sym (append-nil s))
      ∙ many-Within is_part_char s [] n (IsCodes-parts s h) tt in
    rw (literal-append key s, whole) refl

abbrev pub hevc_fmtp_text : Text → Text → Text → Text
hevc_fmtp_text vps sps pps =
    codes "a=fmtp:97 sprop-sps="
    ++ (sps ++ (codes ";sprop-pps=" ++ (pps ++ (codes ";sprop-vps=" ++ vps))))

module _ (vps sps pps : Text) (some_vps : vps ≢ []) (some_sps : sps ≢ []) (some_pps : pps ≢ [])
    (hv : All IsCode vps) (hs : All IsCode sps) (hp : All IsCode pps) where
  abbrev last_set : Text
  last_set = codes "sprop-vps=" ++ vps

  abbrev last_sets : Text
  last_sets = codes "sprop-pps=" ++ (pps ++ (b';' ∷ last_set))

  find_sps : search (set_pattern (codes "sprop-sps=")) (hevc_fmtp_text vps sps pps) ≡ some sps
  unfolding search set_pattern literal starts_with to_lower
  find_sps =
      search_first (set_pattern (codes "sprop-sps="))
        (codes "sprop-sps=" ++ (sps ++ (b';' ∷ last_sets))) sps
        (set_pattern-key (codes "sprop-sps=") sps last_sets some_sps hs)

  -- A search for a later set goes over the first one.
  over_sps :
      (k : Text)
      → search (set_pattern (codes "sprop-" ++ k)) (sps ++ (b';' ∷ last_sets))
        ≡ search (set_pattern (codes "sprop-" ++ k)) last_sets
  over_sps k =
      search-behind (set_pattern (codes "sprop-" ++ k)) sps last_sets
        (λ t h. set-behind k t last_sets h) (IsCodes-Lacks sps hs)

  find_pps : search (set_pattern (codes "sprop-pps=")) (hevc_fmtp_text vps sps pps) ≡ some pps
  unfolding search set_pattern literal starts_with to_lower
  find_pps =
      over_sps (codes "pps=")
      ∙ search_first (set_pattern (codes "sprop-pps=")) last_sets pps
          (set_pattern-key (codes "sprop-pps=") pps last_set some_pps hp)

  over_pps :
      (k : Text)
      → search (set_pattern (codes "sprop-" ++ k)) (pps ++ (b';' ∷ last_set))
        ≡ search (set_pattern (codes "sprop-" ++ k)) last_set
  over_pps k =
      search-behind (set_pattern (codes "sprop-" ++ k)) pps last_set
        (λ t h. set-behind k t last_set h) (IsCodes-Lacks pps hp)

  find_vps : search (set_pattern (codes "sprop-vps=")) (hevc_fmtp_text vps sps pps) ≡ some vps
  unfolding search set_pattern literal starts_with to_lower
  find_vps =
      over_sps (codes "vps=")
      ∙ (over_pps (codes "vps=")
          ∙ search_first (set_pattern (codes "sprop-vps=")) last_set vps
              (set_pattern-key_last (codes "sprop-vps=") vps some_vps hv))

  find_h264 : search h264_pattern (hevc_fmtp_text vps sps pps) ≡ none
  unfolding search h264_pattern literal starts_with to_lower
  find_h264 =
      search-behind h264_pattern sps last_sets (λ t h. h264-behind t last_sets h)
        (IsCodes-Lacks sps hs)
      ∙ (search-behind h264_pattern pps last_set (λ t h. h264-behind t last_set h)
            (IsCodes-Lacks pps hp)
          ∙ search-Lacks h264_pattern vps h264-last (IsCodes-Lacks vps hv))

  pub fmtp_in-hevc_fmtp_text :
      (m : MediaInfo)
      → fmtp_in (hevc_fmtp_text vps sps pps) m ≡ record m { sps = sps; pps = pps; vps = vps }
  unfolding fmtp_in
  fmtp_in-hevc_fmtp_text m = rw (find_h264, find_sps, find_pps, find_vps) refl
