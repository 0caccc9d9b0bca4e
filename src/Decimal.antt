-- ===== src/Decimal.antt =====
-- `%d` of a number that is not negative, and `strconv.ParseInt(s, 10, 64)`.
pub mod RoundTrip
mod Tests
use proxy_go.Prelude.Int.{ℤ, pos, sub_ℕ}
use proxy_go.Prelude.{
  ltb, leb, if◌then◌else◌, ◌==◌, Text, nat_eq, text_eq, ℕ, zero, suc, ◌+◌, ◌-◌, ◌*◌, ◌/◌, ◌%◌, ◌^◌,
  Bool, true, false, ◌&&◌, Option, none, some, [], ◌∷◌, ◌++◌,
}

abbrev pub i64_max : ℕ
i64_max = 2 ^ 63 - 1

-- The digits of `n`, with fuel for as many; `suc n` is enough.
digits : ℕ → ℕ → Text
digits zero n = []
digits (suc f) n =
    let more = digits f (n / 10) in if ltb n 10 then (48 + n) ∷ [] else more ++ (48 + n % 10) ∷ []

unfoldable pub format_int : ℕ → Text
unfolding digits
format_int n = digits (suc n) n

abbrev pub is_digit : ℕ → Bool
is_digit c = leb 48 c && leb c 57

-- the value of the digits read so far, or none at a byte that is no digit
parse_digits : ℕ → Text → Option ℕ
parse_digits acc [] = some acc
parse_digits acc (c ∷ s) = elim (is_digit c) [
  | true ↦ parse_digits (acc * 10 + (c - 48)) s
  | false ↦ none
]

parse_magnitude : Text → Option ℕ
unfolding parse_digits
parse_magnitude [] = none
parse_magnitude (c ∷ s) = parse_digits 0 (c ∷ s)

-- the bounds of an int64
in_range : Bool → Option ℕ → Option ℤ
in_range negative none = none
in_range true (some n) = if leb n (i64_max + 1) then some (sub_ℕ 0 n) else none
in_range false (some n) = if leb n i64_max then some (pos n) else none

unfoldable pub parse_int : Text → Option ℤ
unfolding parse_magnitude in_range
parse_int [] = none
parse_int (c ∷ s) =
    if c == b'-'
    then in_range true (parse_magnitude s)
    else if c == b'+'
    then in_range false (parse_magnitude s)
    else in_range false (parse_magnitude (c ∷ s))
