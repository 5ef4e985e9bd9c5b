-- ===== src/Base/Text.antt =====
-- Go strings. Whole texts are compared; `TrimSpace` and `ToUpper` are Go's on white space and on the
-- letters of ASCII, and `ToUpper` leaves every other character as it is.
use Prim.Native.Nat.{Ordering, ℕ, zero, suc, ◌-◌, ◌+◌, ◌*◌, ◌/◌, ◌%◌, ◌^◌}
use Prim.Native.Char.{Char, code}
use Prim.Native.String.{compare, String, char_at, len, ◌++◌}
use text.Mathlib.Text
use mathlib.Core.Bool.{Bool, true, false, ◌&&◌, ◌||◌}
use mathlib.Core.Path.{◌≡◌, refl}
use mathlib.Core.Option.{Option, none, some}
use mathlib.Core.List.{List, [], ◌∷◌}
use native.Mathlib.Omega.{arith}
use text.Mathlib.TextEquality.{eq_iff}
use goshop_x.Base.Int.{ℤ, pos, negsuc, sub_ℕ}
use goshop_x.Base.Tests.{ltb, leb, ◌==◌, if◌then◌else◌}

abbrev pub same : String → String → Bool
same = Text.◌==◌

-- Go's `+` on strings.
abbrev pub append : String → String → String
append = ◌++◌

-- `len(s)`: the bytes of the text in UTF-8.
abbrev pub byte_length : String → ℕ
byte_length = len

-- Go's `<` on strings.
abbrev pub is_less : String → String → Bool
is_less a b = elim (compare a b) [ Ordering.lt ↦ true | _ ↦ false ]

abbrev pub is_empty : String → Bool
is_empty s = same s ""

-- Texts that agree with a third agree with one another.
pub same_common : (s t k : String) → same s k ≡ true → same t k ≡ true → same t s ≡ true
same_common s t k h h' = ground (arith, eq_iff s k, eq_iff t k, eq_iff t s)

-- `unicode.IsSpace`.
is_space : ℕ → Bool
is_space c =
    (leb 9 c && leb c 13)
    || c == 32
    || c == 0x85
    || c == 0xA0
    || c == 0x1680
    || (leb 0x2000 c && leb c 0x200a)
    || c == 0x2028
    || c == 0x2029
    || c == 0x202f
    || c == 0x205f
    || c == 0x3000

trim_left : String → String
unfolding is_space
trim_left String.[] = String.[]
trim_left (String.◌∷◌ c s) =
    let rest = trim_left s in if is_space (code c) then rest else String.◌∷◌ c s

trim_right : String → String
unfolding is_space
trim_right String.[] = String.[]
trim_right (String.◌∷◌ c s) =
    let rest = trim_right s in
    if is_space (code c) && is_empty rest then String.[] else String.◌∷◌ c rest

unfoldable pub trim_space : String → String
unfolding trim_left trim_right
trim_space s = trim_right (trim_left s)

upper : Char → Char
upper c =
    if leb b'a' (code c) && leb (code c) b'z'
    then char_at "ABCDEFGHIJKLMNOPQRSTUVWXYZ" (code c - b'a')
    else c

unfoldable pub to_upper : String → String
unfolding upper
to_upper String.[] = String.[]
to_upper (String.◌∷◌ c s) = String.◌∷◌ (upper c) (to_upper s)

-- The decimal digits of a number, before a text; `fuel` bounds their number.
decimal_onto : ℕ → ℕ → String → String
decimal_onto zero n acc = acc
decimal_onto (suc fuel) n acc =
    let shown = String.◌∷◌ (char_at "0123456789" (n % 10)) acc in
    let rest = decimal_onto fuel (n / 10) shown in if ltb n 10 then shown else rest

-- `strconv.FormatUint` and `%d`: a `uint64` has at most 20 digits.
unfoldable pub decimal : ℕ → String
unfolding decimal_onto
decimal n = decimal_onto 20 n ""

-- `strconv.Itoa`.
unfoldable pub decimal_int : ℤ → String
decimal_int (pos n) = decimal n
decimal_int (negsuc n) = append "-" (decimal (suc n))

printed : Text.◌==◌ (append (decimal 0) (decimal 1_234_567_890)) "01234567890" ≡ true
unfolding decimal
printed = refl

-- The value of a text of decimal digits after the digits that `acc` stands for.
digits_value : ℕ → String → Option ℕ
digits_value acc String.[] = some acc
digits_value acc (String.◌∷◌ c s) =
    let rest = digits_value (acc * 10 + (code c - b'0')) s in
    if leb b'0' (code c) && leb (code c) b'9' then rest else none

unsigned_value : String → Option ℕ
unfolding digits_value
unsigned_value String.[] = none
unsigned_value (String.◌∷◌ c s) = digits_value 0 (String.◌∷◌ c s)

-- `strconv.ParseInt(s, 10, 64)`: an optional sign, digits, and the range of an `int64`.
unfoldable pub parse_int64 : String → Option ℤ
unfolding unsigned_value
parse_int64 String.[] = none
parse_int64 (String.◌∷◌ c s) =
    if code c == b'-'
    then elim (unsigned_value s) [
      | none ↦ none
      | some n ↦ if leb n (2 ^ 63) then some (sub_ℕ 0 n) else none
    ]
    else elim (unsigned_value (if code c == b'+' then s else String.◌∷◌ c s)) [
      | none ↦ none
      | some n ↦ if ltb n (2 ^ 63) then some (pos n) else none
    ]

parsed : parse_int64 "-120500" ≡ some (negsuc 120499)
unfolding parse_int64
parsed = refl

-- `strings.Join(parts, ",")`.
unfoldable pub join_commas : List String → String
join_commas [] = ""
join_commas (s ∷ ss) = elim ss [ [] ↦ s | _ ∷ _ ↦ append s (append "," (join_commas ss)) ]

push_char : Char → List String → List String
push_char c [] = String.◌∷◌ c String.[] ∷ []
push_char c (w ∷ ws) = String.◌∷◌ c w ∷ ws

-- `strings.Split(s, ",")`.
unfoldable pub split_commas : String → List String
unfolding push_char
split_commas String.[] = "" ∷ []
split_commas (String.◌∷◌ c s) =
    let rest = split_commas s in if code c == b',' then "" ∷ rest else push_char c rest

normalised : Text.◌==◌ (to_upper (trim_space " save 10\n")) "SAVE 10" ≡ true
unfolding to_upper trim_space
normalised = refl

-- `strings.ReplaceAll(s, "-", " ")`.
unfoldable pub spaced : String → String
spaced String.[] = String.[]
spaced (String.◌∷◌ c s) = String.◌∷◌ (if code c == b'-' then char_at " " 0 else c) (spaced s)
