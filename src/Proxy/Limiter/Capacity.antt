-- ===== src/Proxy/Limiter/Capacity.antt =====
-- How many tokens a limiter made by `NewLimiter` holds.
use proxy_go.Prelude.{
  ltb, if◌then◌else◌, Bool-cases, nat_eq, text_eq, ℕ, ◌+◌, ◌*◌, ◌%◌, ◌^◌, ◌≤◌, ◌<◌, ◌≡◌, sym, ap,
  ◌∙◌, ◌⊎◌, inl, inr, true, Option, none, some, [], arith,
}
use proxy_go.Prelude.Int.{ℤ, pos, negsuc, pos_part, ltb_ℤ, int64}
use proxy_go.Proxy.Limiter.{Limiter, unit, add_int, scaled, new_limiter}

int64-low : (n : ℕ) → n < 2 ^ 63 → int64 n ≡ pos n
unfolding int64
int64-low n h = ground arith

pos_part-int64 : (n : ℕ) → n < 2 ^ 64 → 2 ^ 63 ≤ n → pos_part (int64 n) ≡ 0
unfolding int64
pos_part-int64 n h big = ground arith

pos_part-int64_le : (n : ℕ) → n < 2 ^ 64 → pos_part (int64 n) ≤ n
unfolding int64
pos_part-int64_le n h = ground arith

-- a sum of ints is never more than the true sum, which it is if that fits, and not positive if it
-- overflows
add_int_le : (a b : ℕ) → pos_part (add_int a b) ≤ a + b
unfolding add_int
add_int_le a b = omega (arith, pos_part-int64_le ((a + b) % 2 ^ 64) (omega arith))

add_int-fits : (a b : ℕ) → a + b < 2 ^ 63 → pos_part (add_int a b) ≡ a + b
unfolding add_int
add_int-fits a b h =
    let same : (a + b) % 2 ^ 64 ≡ a + b = omega arith in rw same (ap pos_part (int64-low (a + b) h))

add_int-overflow : (a b : ℕ) → 2 ^ 63 ≤ a + b → a + b < 2 ^ 64 → pos_part (add_int a b) ≡ 0
unfolding add_int
add_int-overflow a b big h =
    let same : (a + b) % 2 ^ 64 ≡ a + b = omega arith in rw same (pos_part-int64 (a + b) h big)

pos_part-scaled : (z : ℤ) → pos_part (scaled z) ≡ pos_part z * unit
pos_part-scaled (pos n) = ground arith
pos_part-scaled (negsuc n) = ground arith

-- whole tokens, or none
pub capacity-cases :
    (l : Limiter) (z : ℤ) → l.burst ≡ scaled z → (unit ≤ pos_part l.burst) ⊎ (pos_part l.burst ≡ 0)
capacity-cases l z e = elim (Bool-cases (ltb 0 (pos_part z))) [
  | inl some_left ↦ inl (rw (e, pos_part-scaled z) (ground arith))
  | inr dry ↦ inr (rw (e, pos_part-scaled z) (ground arith))
]

pub record IsMade (rps burst : ℤ) (l : Limiter) : Type 0 where
  pub rate : l.rps ≡ pos_part rps
  pub capacity : l.burst ≡ scaled (add_int (pos_part rps) (pos_part burst))
  pub no_buckets : l.bs ≡ []
  pub positive : 0 < pos_part rps

at_least_none : (z : ℤ) → (if ltb_ℤ z (pos 0) then 0 else pos_part z) ≡ pos_part z
at_least_none (pos n) = ground arith
at_least_none (negsuc n) = ground arith

burst_or : ℤ → Option Limiter → ℤ
burst_or d none = d
burst_or d (some l) = l.burst

pub new_limiter_fields :
    (rps burst : ℤ) (l : Limiter) → new_limiter rps burst ≡ some l → IsMade rps burst l
unfolding new_limiter int64 burst_or
new_limiter_fields rps burst l e = record {
  rate = ground arith;
  capacity =
      let gate : ltb_ℤ (pos 0) rps ≡ true = ground arith in
      sym (simp (gate, at_least_none burst) at (ap (burst_or l.burst) e));
  no_buckets = ground arith;
  positive = ground arith;
}

module _ (rps burst : ℤ) (l : Limiter) (m : IsMade rps burst l) where
  pub whole-IsMade : (unit ≤ pos_part l.burst) ⊎ (pos_part l.burst ≡ 0)
  whole-IsMade = capacity-cases l _ m.capacity

  tokens-IsMade : pos_part l.burst ≡ pos_part (add_int (pos_part rps) (pos_part burst)) * unit
  tokens-IsMade = ap pos_part m.capacity ∙ pos_part-scaled _

  pub bound-IsMade : pos_part l.burst ≤ (pos_part rps + pos_part burst) * unit
  bound-IsMade = omega (arith, tokens-IsMade, add_int_le (pos_part rps) (pos_part burst))

  pub room-IsMade : pos_part rps + pos_part burst < 2 ^ 63 → unit ≤ pos_part l.burst
  room-IsMade fits =
      omega (arith, tokens-IsMade, add_int-fits (pos_part rps) (pos_part burst) fits, m.positive)

  pub overflow-IsMade :
      2 ^ 63 ≤ pos_part rps + pos_part burst
      → pos_part rps + pos_part burst < 2 ^ 64
      → pos_part l.burst ≡ 0
  overflow-IsMade big small =
      omega (arith, tokens-IsMade, add_int-overflow (pos_part rps) (pos_part burst) big small)
