-- ===== src/Rtsp/Transport.antt =====
-- The Transport header of `RtspRequest` in src/rtsp-common/rtsp_request.cpp: `getTransport`,
-- `getRtpPort`, `getRtcpPort`, `isMulticast`. A std::regex search is a search for the first place
-- where the pattern matches.
use rtsp_sdk.Common.{
  ℕ, ◌<◌, ◌^◌, ◌≡◌, ◌≢◌, refl, sym, ap, ◌∙◌, Bool, true, false, Option, none, some, [], ◌∷◌, ◌++◌,
  append_assoc, length, length-append, All-append, drop, leb, ◌==◌, if◌then◌else◌, arith,
}
use rtsp_sdk.Text.Chars.{Text, codes, is_digit, take_while, drop_while, Lacks}
use rtsp_sdk.Text.Search.{starts_with, contains, starts_with-append}
use rtsp_sdk.Text.Numbers.{
  ℤ, pos, negsuc, parse_int32_safe, digits, Digits, digits-Digits, digits-cons, show_int, in_int32,
  parse_int32_safe-show_int,
}
use rtsp_sdk.Rtsp.Request.{Request, get_header}

unfoldable pub get_transport : Request → Text
get_transport r = get_header r (codes "Transport")

unfoldable pub is_multicast : Request → Bool
is_multicast r = contains (codes "multicast") (get_transport r)

abbrev pub some_text : Text → Option Text
some_text [] = none
some_text (c ∷ s) = some (c ∷ s)

-- `(\d+)` at the front of a text.
unfoldable pub digits_here : Text → Option Text
digits_here s = some_text (take_while is_digit s)

abbrev pub behind_dash : Text → Option Text
behind_dash [] = none
behind_dash (c ∷ s) = if c == b'-' then digits_here s else none

abbrev pub if_some : Option Text → Option Text → Option Text
if_some none o = none
if_some (some t) o = o

-- `\d+-(\d+)` at the front of a text.
unfoldable pub second_here : Text → Option Text
second_here s = if_some (digits_here s) (behind_dash (drop_while is_digit s))

unfoldable pub port_key : Text
port_key = codes "client_port="

unfoldable pub behind_key : (Text → Option Text) → Text → Option Text
behind_key f s = if starts_with port_key s then f (drop 12 s) else none

abbrev pub or_further : Option Text → Option Text → Option Text
or_further none o = o
or_further (some t) o = some t

-- `regex_search`: the group of the first match.
unfoldable pub regex_search : (Text → Option Text) → Text → Option Text
regex_search f [] = behind_key f []
regex_search f (c ∷ s) = or_further (behind_key f (c ∷ s)) (regex_search f s)

unfoldable pub port_in : Option ℤ → ℕ
port_in none = 0
port_in (some (pos n)) = if leb n 65535 then n else 0
port_in (some (negsuc n)) = 0

abbrev pub port_of : Option Text → ℕ
port_of none = 0
port_of (some t) = port_in (parse_int32_safe t)

unfoldable pub get_rtp_port : Request → ℕ
get_rtp_port r = port_of (regex_search digits_here (get_transport r))

unfoldable pub get_rtcp_port : Request → ℕ
get_rtcp_port r = port_of (regex_search second_here (get_transport r))

port_in-small : (v : Option ℤ) → port_in v < 2 ^ 16
unfolding port_in
port_in-small none = omega arith
port_in-small (some (pos n)) = ground arith
port_in-small (some (negsuc n)) = omega arith

port_of-small : (o : Option Text) → port_of o < 2 ^ 16
port_of-small none = omega arith
port_of-small (some t) = port_in-small (parse_int32_safe t)

-- Both ports fit 16 bits, whatever the header says.
pub ports-small : (r : Request) → (get_rtp_port r < 2 ^ 16) × (get_rtcp_port r < 2 ^ 16)
unfolding get_rtp_port get_rtcp_port
ports-small r = (
  port_of-small (regex_search digits_here (get_transport r)),
  port_of-small (regex_search second_here (get_transport r)),
)

-- A range of ports as clients write it.
unfoldable pub port_range : ℕ → ℕ → Text → Text
port_range a b rest = port_key ++ (digits a ++ (b'-' ∷ (digits b ++ rest)))

-- No digit at the front.
abbrev pub NoDigit : Text → Type 0
NoDigit [] = Unit
NoDigit (c ∷ s) = is_digit c ≡ false

taken : (d rest : Text) → Digits d → NoDigit rest → take_while is_digit (d ++ rest) ≡ d
unfolding take_while
taken [] [] h k = refl
taken [] (c ∷ rest) h k = rw k refl
taken (c ∷ d) rest h k = rw h.0 (ap (◌∷◌ c) (taken d rest h.1 k))

dropped : (d rest : Text) → Digits d → NoDigit rest → drop_while is_digit (d ++ rest) ≡ rest
unfolding drop_while
dropped [] [] h k = refl
dropped [] (c ∷ rest) h k = rw k refl
dropped (c ∷ d) rest h k = rw h.0 (dropped d rest h.1 k)

some_text-cons : (s : Text) (c : ℕ) (t : Text) → s ≡ c ∷ t → some_text s ≡ some s
some_text-cons s c t e = rw e refl

digits_here-digits :
    (n : ℕ) (rest : Text) → NoDigit rest → digits_here (digits n ++ rest) ≡ some (digits n)
unfolding digits_here
digits_here-digits n rest h =
    let (c, t, e) = digits-cons n in
    ap some_text (taken (digits n) rest (digits-Digits n) h) ∙ some_text-cons (digits n) c t e

second_here-digits :
    (a b : ℕ) (rest : Text)
    → NoDigit rest
    → second_here (digits a ++ (b'-' ∷ (digits b ++ rest))) ≡ some (digits b)
unfolding second_here is_digit
second_here-digits a b rest h =
    let tail = b'-' ∷ (digits b ++ rest) in
    let one : digits_here (digits a ++ tail) ≡ some (digits a) = digits_here-digits a tail refl in
    let two : drop_while is_digit (digits a ++ tail) ≡ tail =
      dropped (digits a) tail (digits-Digits a) refl in
    rw (one, two) (digits_here-digits b rest h)

-- A key with '=' at its end does not begin where no '=' is near enough.
no_key :
    (k w v : Text)
    → Lacks b'=' w
    → length k < length w
    → starts_with (k ++ (b'=' ∷ [])) (w ++ v) ≡ false
unfolding starts_with
no_key k [] v h l = absurd (omega arith)
no_key [] (c ∷ w) v h l = ground arith
no_key (d ∷ k) (c ∷ w) v h l = grind (arith, no_key k w v h.1 (omega arith))

abbrev key_name : Text
key_name = codes "client_port"

search-here :
    (f : Text → Option Text) (c : ℕ) (s t : Text)
    → starts_with port_key (c ∷ s) ≡ true
    → f (drop 12 (c ∷ s)) ≡ some t
    → regex_search f (c ∷ s) ≡ some t
unfolding regex_search behind_key
search-here f c s t h e = rw (h, e) refl

search-later :
    (f : Text → Option Text) (c : ℕ) (s : Text)
    → starts_with port_key (c ∷ s) ≡ false
    → regex_search f (c ∷ s) ≡ regex_search f s
unfolding regex_search behind_key
search-later f c s h = rw h refl

key_at_front :
    (f : Text → Option Text) (v t : Text) → f v ≡ some t → regex_search f (port_key ++ v) ≡ some t
unfolding port_key
key_at_front f v t e =
    search-here f b'c' (codes "lient_port=" ++ v) t (starts_with-append (codes "client_port=") v) e

key_name-plain : Lacks b'=' key_name
key_name-plain = ground arith

no_key_here :
    (c : ℕ) (pre v : Text)
    → Lacks b'=' (c ∷ pre)
    → starts_with port_key (c ∷ (pre ++ (port_key ++ v))) ≡ false
unfolding port_key
no_key_here c pre v h =
    ap (starts_with (codes "client_port=")) (sym (append_assoc (c ∷ pre) key_name (b'=' ∷ v)))
    ∙ no_key key_name ((c ∷ pre) ++ key_name) (b'=' ∷ v)
        (All-append (λ x. x ≢ b'=') (c ∷ pre) key_name h key_name-plain)
        (omega (arith, length-append (c ∷ pre) key_name))

searched :
    (f : Text → Option Text) (pre v t : Text)
    → Lacks b'=' pre
    → f v ≡ some t
    → regex_search f (pre ++ (port_key ++ v)) ≡ some t
searched f [] v t h e = key_at_front f v t e
searched f (c ∷ pre) v t h e =
    search-later f c (pre ++ (port_key ++ v)) (no_key_here c pre v h) ∙ searched f pre v t h.1 e

port_of-digits : (n : ℕ) → n < 2 ^ 16 → port_of (some (digits n)) ≡ n
unfolding port_in show_int in_int32
port_of-digits n h =
    let fits : in_int32 (pos n) ≡ true = ground arith in
    ap port_in (parse_int32_safe-show_int (pos n) fits) ∙ ground arith

-- From a range of two ports of 16 bits, in a Transport header without another '=' in front of it,
-- both are read.
pub ports-port_range :
    (r : Request) (pre rest : Text) (a b : ℕ)
    → get_transport r ≡ pre ++ port_range a b rest
    → Lacks b'=' pre
    → NoDigit rest
    → a < 2 ^ 16
    → b < 2 ^ 16
    → (get_rtp_port r ≡ a) × (get_rtcp_port r ≡ b)
unfolding get_rtp_port get_rtcp_port port_range is_digit
ports-port_range r pre rest a b e h k ha hb =
    let v = digits a ++ (b'-' ∷ (digits b ++ rest)) in
    let one : regex_search digits_here (get_transport r) ≡ some (digits a) =
      ap (regex_search digits_here) e
      ∙ searched digits_here pre v (digits a) h
          (digits_here-digits a (b'-' ∷ (digits b ++ rest)) refl) in
    let two : regex_search second_here (get_transport r) ≡ some (digits b) =
      ap (regex_search second_here) e
      ∙ searched second_here pre v (digits b) h (second_here-digits a b rest k) in
    (ap port_of one ∙ port_of-digits a ha, ap port_of two ∙ port_of-digits b hb)
