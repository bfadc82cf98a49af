-- ===== src/Rtmp/Amf0/Sound.antt =====
-- What the decoder of src/rtmp/amf0_codec.cpp returns on any input, well formed or not.
use rtsp_sdk.Common.{
  ℕ, zero, suc, ◌+◌, ◌*◌, ◌≤◌, ◌<◌, ◌^◌, ◌≡◌, refl, subst, Bool, true, false, List, ◌++◌, length,
  take, drop, length-take, length-drop, All, All-drop, arith, ltb, ltb→le, ◌==◌, if◌then◌else◌,
}
use rtsp_sdk.Common.Bytes.{
  IsByte, at, read_be16, read_be32, read_be16-lt, read_be32-lt, read_be64-lt,
}
use rtsp_sdk.Rtmp.Amf0.Value.{
  Value, Props, Items, no_items, count_items, Fits, FitsProps, FitsItems,
}
use rtsp_sdk.Rtmp.Amf0.Encode.{encode}
use rtsp_sdk.Rtmp.Amf0.Decode.{
  Result, ok, failed, ◌>>=◌, read_short_string, parse_marked, parse_prop, parse_item,
  parse_value_fuel, parse_props, parse_items, parse_value, PropsParser, ItemsParser, ValueParser,
}
use rtsp_sdk.Rtmp.Amf0.RoundTrip.{parse_value-encode}

-- The run ends within its fuel: it refuses, or it accepts with a result that satisfies `P`.
pub data Ends {ℓ κ} {A : Type ℓ} (P : A → Type κ) (r : Result A) : Type (ℓ ⊔ κ) where
  accepts : (a : A) → r ≡ ok a → P a → Ends P r
  refuses : r ≡ failed → Ends P r

Ends-ok {ℓ κ} : {A : Type ℓ} (P : A → Type κ) (a : A) {r : Result A} → r ≡ ok a → Ends P r → P a
Ends-ok P a e (accepts b e' h) = subst P (cc) h
Ends-ok P a e (refuses e') = cc

branch {ℓ κ} :
    {A : Type ℓ} {P : A → Type κ} (b : Bool) {x y : Result A}
    → (b ≡ true → Ends P x)
    → (b ≡ false → Ends P y)
    → Ends P (if b then x else y)
branch true on_true on_false = on_true refl
branch false on_true on_false = on_false refl

module _ {ℓ κ ℓ' κ'} {A : Type ℓ} {P : A → Type κ} {B : Type ℓ'} {Q : B → Type κ'} where
  chain :
      {r : Result A} {k : A → Result B}
      → Ends P r
      → ((a : A) → P a → Ends Q (k a))
      → Ends Q (r >>= k)
  chain (accepts a e h) next = rw e (next a h)
  chain (refuses e) next = rw e (refuses refl)

-- Something was consumed, and no more than there is.
abbrev Consumed : List ℕ → ℕ → Type 0
Consumed src n = (0 < n) × (n ≤ length src)

abbrev GoodString : List ℕ → (List ℕ × ℕ) → Type 0
GoodString src (s, n) =
    (length s < 2 ^ 16) × (n ≡ 2 + length s) × (n ≤ length src) × (length s ≡ read_be16 src)

abbrev pub GoodValue : List ℕ → (Value × ℕ) → Type 0
GoodValue src (v, n) = Fits v × Consumed src n

abbrev GoodProps : List ℕ → (Props × ℕ) → Type 0
GoodProps src (ps, n) = FitsProps ps × Consumed src n

abbrev GoodItems : ℕ → List ℕ → (Items × ℕ) → Type 0
GoodItems count src (xs, n) = FitsItems xs × (count_items xs ≡ count) × (n ≤ length src)

read_short_string_good :
    (src : List ℕ) → All IsByte src → Ends (GoodString src) (read_short_string src)
unfolding read_short_string
read_short_string_good src b =
    branch (ltb (length src) 2) (λ _. refuses refl)
      λ e.
        branch (ltb (length src) (2 + read_be16 src)) (λ _. refuses refl)
          λ e2.
            let s = read_be16 src in
            let len : length (take s (drop 2 src)) ≡ s =
              omega (arith, length-take s (drop 2 src), length-drop 2 src, ltb→le _ _ e2) in
            accepts _ refl
              (omega (arith, read_be16-lt src b, len), omega (arith, len), ltb→le _ _ e2, len)

module _ (props : PropsParser) (items : ItemsParser) (src : List ℕ)
    (props_good : (s : List ℕ)
      → length s < length src
      → All IsByte s
      → Ends (GoodProps s) (props s))
    (items_good : (c : ℕ) (s : List ℕ)
      → length s < length src
      → All IsByte s
      → Ends (GoodItems c s) (items c s)) where
  parse_marked_good :
      0 < length src → All IsByte src → Ends (GoodValue src) (parse_marked props items src)
  unfolding parse_marked Fits
  parse_marked_good pos b =
      branch (at src 0 == 0)
        (λ _.
          branch (ltb (length src) 9) (λ _. refuses refl)
            λ e.
              accepts _ refl
                (read_be64-lt _ (All-drop IsByte 1 src b), (omega arith, ltb→le _ _ e)))
        λ _.
          branch (at src 0 == 1)
            (λ _.
              branch (ltb (length src) 2) (λ _. refuses refl)
                λ e. accepts _ refl (tt, (omega arith, ltb→le _ _ e)))
            λ _.
              branch (at src 0 == 2)
                (λ _.
                  chain (read_short_string_good (drop 1 src) (All-drop IsByte 1 src b)) λ (s, n) h.
                    accepts _ refl (h.0, (omega arith, omega (arith, length-drop 1 src))))
                λ _.
                  branch (at src 0 == 5) (λ _. accepts _ refl (tt, (omega arith, pos)))
                    λ _.
                      branch (at src 0 == 6) (λ _. accepts _ refl (tt, (omega arith, pos)))
                        λ _.
                          branch (at src 0 == 3)
                            (λ _.
                              chain
                                (props_good (drop 1 src) (omega (arith, length-drop 1 src))
                                  (All-drop IsByte 1 src b))
                                λ (ps, n) h.
                                  accepts _ refl
                                    (h.0, (omega arith, omega (arith, length-drop 1 src))))
                            λ _.
                              branch (at src 0 == 8)
                                (λ _.
                                  branch (ltb (length src) 5) (λ _. refuses refl)
                                    λ e.
                                      chain
                                        (props_good (drop 5 src) (omega (arith, length-drop 5 src))
                                          (All-drop IsByte 5 src b))
                                        λ (ps, n) h. accepts _ refl (
                                          h.0,
                                          (
                                            omega arith,
                                            omega (arith, length-drop 5 src, ltb→le _ _ e),
                                          ),
                                        ))
                                λ _.
                                  branch (at src 0 == 10)
                                    (λ _.
                                      branch (ltb (length src) 5) (λ _. refuses refl)
                                        λ e.
                                          chain
                                            (items_good (read_be32 (drop 1 src)) (drop 5 src)
                                              (omega (arith, length-drop 5 src))
                                              (All-drop IsByte 5 src b))
                                            λ (xs, n) h. accepts _ refl (
                                              (
                                                omega (
                                                  arith,
                                                  h.1,
                                                  read_be32-lt _ (All-drop IsByte 1 src b),
                                                ),
                                                h.0,
                                              ),
                                              (
                                                omega arith,
                                                omega (arith, length-drop 5 src, ltb→le _ _ e),
                                              ),
                                            ))
                                    λ _. refuses refl

module _ (value : ValueParser) (src : List ℕ)
    (value_good : (s : List ℕ)
      → length s ≤ length src
      → All IsByte s
      → Ends (GoodValue s) (value s)) where
  parse_prop_good :
      (props : PropsParser)
      → ((s : List ℕ) → length s < length src → All IsByte s → Ends (GoodProps s) (props s))
      → ((s : List ℕ) → length s < length src → All IsByte s → Ends (GoodValue s) (value s))
      → All IsByte src
      → Ends (GoodProps src) (parse_prop value props src)
  unfolding parse_prop FitsProps
  parse_prop_good props props_good smaller b =
      branch (ltb (length src) 2) (λ _. refuses refl)
        λ e.
          branch (read_be16 src == 0)
            (λ _.
              branch (ltb (length src) 3) (λ _. refuses refl)
                λ e3.
                  branch (at src 2 == 9) (λ _. accepts _ refl (tt, (omega arith, ltb→le _ _ e3)))
                    (λ _. refuses refl))
            λ ne. chain (read_short_string_good src b) λ (k, sn) hk.
              let after = drop sn src in
              let ba = All-drop IsByte sn src b in
              chain (smaller after (omega (arith, length-drop sn src)) ba) λ (v, vn) hv.
                chain
                  (props_good (drop vn after)
                    (omega (arith, length-drop sn src, length-drop vn after))
                    (All-drop IsByte vn after ba))
                  λ (ps, n) hp. accepts _ refl (
                    (ground (arith, hk.3), hk.0, hv.0, hp.0),
                    (omega arith, omega (arith, length-drop sn src, length-drop vn after)),
                  )

  parse_item_good :
      (items : List ℕ → Result (Items × ℕ)) (count : ℕ)
      → ((s : List ℕ) → length s < length src → All IsByte s → Ends (GoodItems count s) (items s))
      → All IsByte src
      → Ends (GoodItems (suc count) src) (parse_item value items src)
  unfolding parse_item FitsItems count_items
  parse_item_good items count items_good b = chain (value_good src (omega arith) b) λ (v, vn) hv.
      chain
        (items_good (drop vn src) (omega (arith, length-drop vn src)) (All-drop IsByte vn src b))
        λ (xs, n) h.
          accepts _ refl ((hv.0, h.0), omega (arith, h.1), omega (arith, length-drop vn src))

no_items_good : (src : List ℕ) → Ends (GoodItems 0 src) (ok (no_items, 0))
unfolding FitsItems count_items
no_items_good src = accepts _ refl (tt, refl, omega arith)

mutual
  unfolding parse_value_fuel

  value_good :
      (f : ℕ) (src : List ℕ)
      → 2 * length src < f
      → All IsByte src
      → Ends (GoodValue src) (parse_value_fuel f src)
  value_good zero src h b = absurd (omega arith)
  value_good (suc f) src h b =
      branch (ltb (length src) 1) (λ _. refuses refl)
        λ e.
          parse_marked_good (parse_props f) (λ c. parse_items f c) src
            (λ s hs. props_good f s (omega arith)) (λ c s hs. items_good f c s (omega arith))
            (ltb→le _ _ e) b

  props_good :
      (f : ℕ) (src : List ℕ)
      → suc (2 * length src) < f
      → All IsByte src
      → Ends (GoodProps src) (parse_props f src)
  props_good zero src h b = absurd (omega arith)
  props_good (suc f) src h b =
      parse_prop_good (parse_value_fuel f) src (λ s hs. value_good f s (omega arith))
        (parse_props f) (λ s hs. props_good f s (omega arith))
        (λ s hs. value_good f s (omega arith)) b

  items_good :
      (f count : ℕ) (src : List ℕ)
      → suc (2 * length src) < f
      → All IsByte src
      → Ends (GoodItems count src) (parse_items f count src)
  items_good zero count src h b = absurd (omega arith)
  items_good (suc f) zero src h b = no_items_good src
  items_good (suc f) (suc count) src h b =
      parse_item_good (parse_value_fuel f) src (λ s hs. value_good f s (omega arith))
        (parse_items f count) count (λ s hs. items_good f count s (omega arith)) b

-- On every input of bytes `parse_value` ends within the fuel that it is given. If it accepts, the
-- value fits the format, and it has consumed at least one byte and no more than there are.
pub parse_value_sound : (src : List ℕ) → All IsByte src → Ends (GoodValue src) (parse_value src)
unfolding parse_value
parse_value_sound src b = value_good _ src (omega arith) b

-- Whatever `parse_value` accepts, padded counts included, is encoded to bytes that decode to the
-- same value, whatever follows them.
pub parse_value-encode-parse_value :
    (src rest : List ℕ) (v : Value) (n : ℕ)
    → All IsByte src
    → parse_value src ≡ ok (v, n)
    → parse_value (encode v ++ rest) ≡ ok (v, length (encode v))
parse_value-encode-parse_value src rest v n b e =
    parse_value-encode v rest (Ends-ok (GoodValue src) (v, n) e (parse_value_sound src b)).0
