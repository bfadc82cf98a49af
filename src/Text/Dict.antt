-- ===== src/Text/Dict.antt =====
-- `std::map<std::string, std::string>`: the entries in the order of the keys.
use rtsp_sdk.Common.{
  ◌≡◌, refl, ◌∙◌, false, Option, none, some, List, [], ◌∷◌, ◌++◌, if◌then◌else◌, arith,
}
use rtsp_sdk.Text.Chars.{Text}
use rtsp_sdk.Text.Search.{same, before, same_iff, same_self}

abbrev pub Dict {ℓ} : Type ℓ → Type ℓ
Dict V = List (Text × V)

module _ {ℓ} {V : Type ℓ} where
  -- `find`.
  unfoldable pub lookup : Text → Dict V → Option V
  lookup k [] = none
  lookup k ((j, v) ∷ m) = if same j k then some v else lookup k m

  -- `m[k] = v`.
  unfoldable pub put : Text → V → Dict V → Dict V
  put k v [] = (k, v) ∷ []
  put k v ((j, w) ∷ m) =
      if same j k
      then (k, v) ∷ m
      else if before k j
      then (k, v) ∷ (j, w) ∷ m
      else (j, w) ∷ put k v m

  -- `erase(k)`.
  unfoldable pub erase : Text → Dict V → Dict V
  erase k [] = []
  erase k ((j, w) ∷ m) = if same j k then m else (j, w) ∷ erase k m

  pub lookup-put :
      (k j : Text) (v : V) (m : Dict V)
      → lookup j (put k v m) ≡ (if same k j then some v else lookup j m)
  unfolding lookup put
  lookup-put k j v [] = refl
  lookup-put k j v ((i, w) ∷ m) =
      ground (arith, same_iff k j, same_iff i k, same_iff i j, lookup-put k j v m)

  pub lookup-put_self : (k : Text) (v : V) (m : Dict V) → lookup k (put k v m) ≡ some v
  lookup-put_self k v m = rw (lookup-put k k v m, same_self k) refl

  pub lookup-put_other :
      (k j : Text) (v : V) (m : Dict V) → same k j ≡ false → lookup j (put k v m) ≡ lookup j m
  lookup-put_other k j v m h = rw (lookup-put k j v m, h) refl

  -- Entries put in one after the other.
  unfoldable pub put_entries : Dict V → Dict V → Dict V
  put_entries [] d = d
  put_entries ((k, v) ∷ h) d = put_entries h (put k v d)

  -- No name twice, as in any std::map.
  abbrev pub Distinct : Dict V → Type ℓ
  Distinct [] = Unit {ℓ}
  Distinct (e ∷ h) = (lookup e.0 h ≡ none) × Distinct h

  abbrev pub or_else : Option V → Option V → Option V
  or_else none p = p
  or_else (some v) p = some v

  pub lookup-put_entries :
      (h d : Dict V) (k : Text)
      → Distinct h
      → lookup k (put_entries h d) ≡ or_else (lookup k h) (lookup k d)
  unfolding lookup put_entries
  lookup-put_entries [] d k m = refl
  lookup-put_entries ((n, v) ∷ h) d k m =
      let new : lookup n h ≡ none = m.0 in
      lookup-put_entries h (put n v d) k m.1
      ∙ rw (lookup-put n k v d) (ground (arith, same_iff n k))

  pub put_entries-append :
      (g h d : Dict V) → put_entries (g ++ h) d ≡ put_entries h (put_entries g d)
  unfolding put_entries
  put_entries-append [] h d = refl
  put_entries-append ((n, v) ∷ g) h d = put_entries-append g h (put n v d)

  pub lookup-append :
      (g h : Dict V) (k : Text) → lookup k (g ++ h) ≡ or_else (lookup k g) (lookup k h)
  unfolding lookup
  lookup-append [] h k = refl
  lookup-append ((n, v) ∷ g) h k = grind (arith, lookup-append g h k)

  -- An absent key is not the first one, and is absent from the rest.
  pub lookup-absent :
      (k n : Text) (v : V) (h : Dict V)
      → lookup k ((n, v) ∷ h) ≡ none
      → (same n k ≡ false) × (lookup k h ≡ none)
  unfolding lookup
  lookup-absent k n v h e = ground arith
