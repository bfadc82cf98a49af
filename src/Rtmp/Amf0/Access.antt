-- ===== src/Rtmp/Amf0/Access.antt =====
-- `addProp` and `getProp` of src/rtmp/amf0_codec.cpp.
use rtsp_sdk.Common.{ℕ, ◌≡◌, refl, Option, none, some, List, if◌then◌else◌, Bool-cases, inl, inr}
use rtsp_sdk.Rtmp.Amf0.Value.{
  Value, Props, object, ecma_array, no_props, prop, push_prop, add_prop, find_prop, get_prop,
  str_eq,
}

-- The tags whose properties the codec reads and writes.
pub data HasProps : Value → Type 0 where
  of_object : (ps : Props) → HasProps (object ps)
  of_ecma_array : (ps : Props) → HasProps (ecma_array ps)

abbrev pub or_else : Option Value → Option Value → Option Value
or_else (some v) o = some v
or_else none o = o

find_prop-push_prop :
    (ps : Props) (k j : List ℕ) (v : Value)
    → find_prop (push_prop ps k v) j
      ≡ or_else (find_prop ps j) (if str_eq k j then some v else none)
unfolding find_prop push_prop
find_prop-push_prop no_props k j v = refl
find_prop-push_prop (prop i w ps) k j v = elim (Bool-cases (str_eq i j)) [
  | inl e ↦ rw e
  | inr e ↦ rw e (find_prop-push_prop ps k j v)
]

-- After `add_prop` on an object or an ECMA array, `get_prop` finds under every name what it found
-- before; under the new name it finds the new value if it found nothing before.
pub get_prop-add_prop :
    (o : Value) (k j : List ℕ) (v : Value)
    → HasProps o
    → get_prop (add_prop o k v) j ≡ or_else (get_prop o j) (if str_eq k j then some v else none)
unfolding get_prop add_prop
get_prop-add_prop o k j v (of_object ps) = find_prop-push_prop ps k j v
get_prop-add_prop o k j v (of_ecma_array ps) = find_prop-push_prop ps k j v
