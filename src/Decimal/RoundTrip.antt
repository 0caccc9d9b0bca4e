-- ===== src/Decimal/RoundTrip.antt =====
-- A formatted number is read back.
use proxy_go.Decimal.{i64_max, digits, format_int, is_digit, parse_digits, parse_int}
use proxy_go.Prelude.{
  ltb, Bool-cases, All, All-append, contains, Text, nat_eq, text_eq, ℕ, zero, suc, ◌+◌, ◌-◌, ◌*◌,
  ◌/◌, ◌%◌, ◌≤◌, ◌<◌, ◌≡◌, refl, ap, ◌≢◌, inl, inr, true, false, Option, none, some, [], ◌∷◌, ◌++◌,
  arith,
}
use proxy_go.Prelude.Int.{pos}

abbrev next_digit : Option ℕ → ℕ → Option ℕ
next_digit none d = none
next_digit (some n) d = some (n * 10 + d)

parse_digits-snoc :
    (s : Text) (acc d : ℕ)
    → d < 10
    → parse_digits acc (s ++ (48 + d) ∷ []) ≡ next_digit (parse_digits acc s) d
unfolding parse_digits
parse_digits-snoc [] acc d h = ground arith
parse_digits-snoc (c ∷ s) acc d h = ground (arith, parse_digits-snoc s (acc * 10 + (c - 48)) d h)

parse_digits-digits : (f n : ℕ) → n < f → parse_digits 0 (digits f n) ≡ some n
unfolding digits
parse_digits-digits zero n h = elim h [ ]
parse_digits-digits (suc f) n h = elim (Bool-cases (ltb n 10)) [
  | inl small ↦ rw small (unfold parse_digits in ground arith)
  | inr large ↦
      rw (large, parse_digits-snoc (digits f (n / 10)) 0 (n % 10) (omega arith))
        (rw (parse_digits-digits f (n / 10) (ground arith)) (ap some (omega arith)))
]

-- all bytes are digits, so there is no sign and no dot
digits-All : (f n : ℕ) → All (λ c. is_digit c ≡ true) (digits f n)
unfolding digits
digits-All zero n = tt
digits-All (suc f) n = elim (Bool-cases (ltb n 10)) [
  | inl small ↦ rw small (ground arith, tt)
  | inr large ↦ rw large (
      All-append (λ c. is_digit c ≡ true) (digits f (n / 10)) _ (digits-All f (n / 10))
        (ground arith, tt))
]

contains-All_digit :
    (s : Text) (c : ℕ) → is_digit c ≡ false → All (λ d. is_digit d ≡ true) s → contains s c ≡ false
contains-All_digit [] c h a = refl
contains-All_digit (d ∷ s) c h (good, a) = ground (arith, contains-All_digit s c h a)

pub contains-format_int : (n : ℕ) → contains (format_int n) b'.' ≡ false
unfolding format_int
contains-format_int n = contains-All_digit (digits (suc n) n) b'.' refl (digits-All (suc n) n)

append-ne-nil : (s : Text) (c : ℕ) → s ++ c ∷ [] ≢ []
append-ne-nil [] c h = cc
append-ne-nil (d ∷ s) c h = cc

digits-ne-nil : (f n : ℕ) → digits (suc f) n ≢ []
unfolding digits
digits-ne-nil f n h = elim (Bool-cases (ltb n 10)) [
  | inl small ↦ cc (rw small at h)
  | inr large ↦ append-ne-nil (digits f (n / 10)) _ (rw large at h)
]

parse_int_of_digits :
    (s : Text) (n : ℕ)
    → All (λ c. is_digit c ≡ true) s
    → s ≢ []
    → parse_digits 0 s ≡ some n
    → n ≤ i64_max
    → parse_int s ≡ some (pos n)
unfolding parse_int
parse_int_of_digits [] n a ne e h = absurd (ne refl)
parse_int_of_digits (c ∷ s) n (good, a) ne e h = unfold parse_digits in ground (arith, e)

-- What `%d` writes, `ParseInt` reads back, for every number that fits an int64.
pub parse_int-format_int : (n : ℕ) → n ≤ i64_max → parse_int (format_int n) ≡ some (pos n)
unfolding format_int
parse_int-format_int n h =
    parse_int_of_digits (digits (suc n) n) n (digits-All (suc n) n) (digits-ne-nil n n)
      (parse_digits-digits (suc n) n (omega arith)) h
