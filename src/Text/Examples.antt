-- ===== src/Text/Examples.antt =====
-- The theorems on texts at concrete inputs.
use rtsp_sdk.Common.{◌≡◌, refl, [], ◌∷◌, arith}
use rtsp_sdk.Text.Base64.{
  base64_encode, base64_decode, base64_decode-base64_encode, base64_chars, char_at,
}

encoded : base64_encode (0x67 ∷ 0x42 ∷ []) ≡ 90 ∷ 48 ∷ 73 ∷ 61 ∷ []
unfolding base64_encode base64_chars char_at
encoded = refl

base64_decode-base64_encode_example :
    base64_decode (base64_encode (0x67 ∷ 0x42 ∷ [])) ≡ 0x67 ∷ 0x42 ∷ []
base64_decode-base64_encode_example =
    base64_decode-base64_encode (0x67 ∷ 0x42 ∷ []) (omega arith, (omega arith, tt))
