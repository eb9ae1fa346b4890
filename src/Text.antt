-- ===== src/Text.antt =====
-- The functions of Go's strings and strconv packages that the services use. A text that the
-- program walks is the list of its code points.
use room_booking_platform.Base.{
  ℕ, suc, zero, ◌+◌, ◌-◌, ◌*◌, ◌^◌, Bool, true, false, ◌&&◌, ◌||◌, Option, none, some, List, [],
  ◌∷◌, ltb, leb, ◌==◌, if◌then◌else◌,
}
use mathlib.Core.List.{reverse}

abbrev pub Chars : Type 0
Chars = List ℕ

-- unicode.IsSpace
abbrev is_space : ℕ → Bool
is_space c =
    (leb 9 c && leb c 13)
    || c == 0x20
    || c == 0x85
    || c == 0xa0
    || c == 0x1680
    || (leb 0x2000 c && leb c 0x200a)
    || c == 0x2028
    || c == 0x2029
    || c == 0x202f
    || c == 0x205f
    || c == 0x3000

trim_left : Chars → Chars
trim_left [] = []
trim_left (c ∷ s) = elim (is_space c) [ true ↦ trim_left s | false ↦ c ∷ s ]

-- strings.TrimSpace
unfoldable pub trim_space : Chars → Chars
unfolding trim_left
trim_space s = reverse (trim_left (reverse (trim_left s)))

-- The piece before the first separator goes in front of the others.
abbrev extend_first : ℕ → List Chars → List Chars
extend_first c [] = (c ∷ []) ∷ []
extend_first c (piece ∷ pieces) = (c ∷ piece) ∷ pieces

-- strings.Split by a separator of one character
unfoldable pub split : ℕ → Chars → List Chars
split sep [] = [] ∷ []
split sep (c ∷ s) =
    let pieces = split sep s in if c == sep then [] ∷ pieces else extend_first c pieces

-- A Go int: `pos n` is n, `negsuc n` is -(n + 1).
pub data ℤ : Type 0 where
  pos : ℕ → ℤ
  negsuc : ℕ → ℤ

abbrev negate : ℕ → ℤ
negate zero = pos 0
negate (suc n) = negsuc n

abbrev pub is_digit : ℕ → Bool
is_digit c = leb b'0' c && leb c b'9'

-- The value of a text of digits, or `none` at any other character.
unfoldable pub digits_value : ℕ → Chars → Option ℕ
digits_value acc [] = some acc
digits_value acc (c ∷ s) =
    let rest = digits_value (10 * acc + (c - b'0')) s in if is_digit c then rest else none

abbrev digits : Chars → Option ℕ
digits [] = none
digits (c ∷ s) = digits_value 0 (c ∷ s)

abbrev in_range : Bool → ℕ → Option ℤ
in_range negative n =
    if negative
    then (if leb n (2 ^ 63) then some (negate n) else none)
    else (if ltb n (2 ^ 63) then some (pos n) else none)

abbrev signed : Bool → Option ℕ → Option ℤ
signed negative none = none
signed negative (some n) = in_range negative n

-- strconv.Atoi on a 64-bit int: an optional sign, then digits.
unfoldable pub atoi : Chars → Option ℤ
unfolding digits_value
atoi [] = none
atoi (c ∷ s) =
    if c == b'-'
    then signed true (digits s)
    else if c == b'+'
    then signed false (digits s)
    else signed false (digits (c ∷ s))

-- Go's `==` on strings
abbrev pub same_chars : Chars → Chars → Bool
same_chars [] [] = true
same_chars [] (d ∷ t) = false
same_chars (c ∷ s) [] = false
same_chars (c ∷ s) (d ∷ t) = c == d && same_chars s t

-- strings.Contains, for one character
abbrev pub contains : ℕ → Chars → Bool
contains d [] = false
contains d (c ∷ s) = c == d || contains d s
