-- ===== src/Rtmp/Amf0/Value.antt =====
-- The `Value` struct of src/rtmp/amf0_codec.h with its factories and accessors. The struct is a
-- tagged union: a constructor stands for each `Type`, with the fields that the tag makes
-- meaningful. A double is its 64-bit pattern, a std::string the list of its bytes.
use rtsp_sdk.Common.{ℕ, suc, ◌<◌, ◌^◌, Bool, true, false, Option, none, some, List, [], ◌∷◌}
use rtsp_sdk.Common.{length, ◌==◌, ◌&&◌, if◌then◌else◌}

mutual
  pub data Value : Type 0 where
    number : ℕ → Value
    boolean : Bool → Value
    string : List ℕ → Value
    object : Props → Value
    null : Value
    undefined : Value
    ecma_array : Props → Value
    strict_array : Items → Value

  -- `obj_props`, in the order of insertion.
  pub data Props : Type 0 where
    no_props : Props
    prop : List ℕ → Value → Props → Props

  -- `array`.
  pub data Items : Type 0 where
    no_items : Items
    item : Value → Items → Items

-- `obj_props.size()` and `array.size()`.
unfoldable pub count_props : Props → ℕ
count_props no_props = 0
count_props (prop k v ps) = suc (count_props ps)

unfoldable pub count_items : Items → ℕ
count_items no_items = 0
count_items (item v xs) = suc (count_items xs)

-- `emplace_back` on `obj_props`.
unfoldable pub push_prop : Props → List ℕ → Value → Props
push_prop no_props k v = prop k v no_props
push_prop (prop j w ps) k v = prop j w (push_prop ps k v)

-- `addProp`: the other tags have no visible `obj_props`, so the call shows on these two only.
unfoldable pub add_prop : Value → List ℕ → Value → Value
add_prop (object ps) k v = object (push_prop ps k v)
add_prop (ecma_array ps) k v = ecma_array (push_prop ps k v)
add_prop other k v = other

unfoldable pub add_number : Value → List ℕ → ℕ → Value
add_number o k n = add_prop o k (number n)

unfoldable pub add_bool : Value → List ℕ → Bool → Value
add_bool o k b = add_prop o k (boolean b)

unfoldable pub add_string : Value → List ℕ → List ℕ → Value
add_string o k s = add_prop o k (string s)

-- `operator==` of two std::string.
unfoldable pub str_eq : List ℕ → List ℕ → Bool
str_eq [] [] = true
str_eq [] (y ∷ ys) = false
str_eq (x ∷ xs) [] = false
str_eq (x ∷ xs) (y ∷ ys) = x == y && str_eq xs ys

unfoldable pub find_prop : Props → List ℕ → Option Value
find_prop no_props k = none
find_prop (prop j v ps) k = if str_eq j k then some v else find_prop ps k

-- `getProp`; `none` is the null pointer.
unfoldable pub get_prop : Value → List ℕ → Option Value
get_prop (object ps) k = find_prop ps k
get_prop (ecma_array ps) k = find_prop ps k
get_prop other k = none

-- `asString` and `asNumber`: the empty string and +0.0 on another tag.
unfoldable pub as_string : Value → List ℕ
as_string (string s) = s
as_string other = []

unfoldable pub as_number : Value → ℕ
as_number (number n) = n
as_number other = 0

-- What the length fields of the format can carry: a string and a key below 64 KiB, a key that is
-- not empty (an empty key is the end mark), fewer than 2 ^ 32 entries, a 64-bit double.
unfoldable mutual
  unfolding count_items

  pub Fits : Value → Type 0
  Fits (number n) = n < 2 ^ 64
  Fits (boolean b) = Unit {0}
  Fits (string s) = length s < 2 ^ 16
  Fits (object ps) = FitsProps ps
  Fits null = Unit {0}
  Fits undefined = Unit {0}
  Fits (ecma_array ps) = FitsProps ps
  Fits (strict_array xs) = (count_items xs < 2 ^ 32) × FitsItems xs

  pub FitsProps : Props → Type 0
  FitsProps no_props = Unit {0}
  FitsProps (prop k v ps) = (0 < length k) × (length k < 2 ^ 16) × Fits v × FitsProps ps

  pub FitsItems : Items → Type 0
  FitsItems no_items = Unit {0}
  FitsItems (item v xs) = Fits v × FitsItems xs
