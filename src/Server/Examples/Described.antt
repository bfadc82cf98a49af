-- ===== src/Server/Examples/Described.antt =====
-- The theorems on descriptions at concrete inputs.
use rtsp_sdk.Common.{◌≡◌, refl, some, [], ◌∷◌, arith}
use rtsp_sdk.Text.Chars.{codes}
use rtsp_sdk.Rtp.Frame.{h265}
use rtsp_sdk.Server.Config.{default_path_config, PathConfig}
use rtsp_sdk.Server.Connection.Describe.{describe_sdp, parse_announced}
use rtsp_sdk.Server.Connection.Describe.Announced.{config_of, parse_announced-describe_sdp}
use rtsp_sdk.Server.Connection.Describe.AnnouncedHevc.{
  hevc_config_of, parse_announced-describe_sdp_h265,
}
use rtsp_sdk.Server.Examples.{an_env, live_config}

abbrev known_config : PathConfig
known_config = record live_config { sps = 0x67 ∷ 0x42 ∷ 0 ∷ 30 ∷ []; pps = 0x68 ∷ 0xce ∷ [] }

parse_announced-describe_sdp_example :
    parse_announced (codes "/copy") (describe_sdp an_env known_config)
    ≡ some (config_of (codes "/copy") known_config, 96)
unfolding default_path_config
parse_announced-describe_sdp_example =
    parse_announced-describe_sdp an_env (codes "/copy") known_config refl (λ e. cc) (λ e. cc)
      (ground arith) (ground arith) (omega arith, omega arith) (omega arith, omega arith)
      (ground arith)

abbrev hevc_config : PathConfig
hevc_config = record live_config {
  codec = h265;
  vps = 0x40 ∷ 1 ∷ 12 ∷ [];
  sps = 0x42 ∷ 1 ∷ 1 ∷ [];
  pps = 0x44 ∷ 1 ∷ [];
}

parse_announced-describe_sdp_h265_example :
    parse_announced (codes "/copy") (describe_sdp an_env hevc_config)
    ≡ some (hevc_config_of (codes "/copy") hevc_config, 97)
unfolding default_path_config
parse_announced-describe_sdp_h265_example =
    parse_announced-describe_sdp_h265 an_env (codes "/copy") hevc_config refl
      ((λ e. cc), (λ e. cc), (λ e. cc)) (ground arith) (ground arith) (ground arith)
      (omega arith, omega arith) (omega arith, omega arith) (ground arith)
