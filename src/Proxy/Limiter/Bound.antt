-- ===== src/Proxy/Limiter/Bound.antt =====
-- The budget of a client: over any stretch of time it gets at most the burst and the rate.
use proxy_go.Prelude.{
  ltb, if◌then◌else◌, nat_eq, text_eq, ℕ, ◌+◌, ◌-◌, ◌*◌, ◌≤◌, ◌≡◌, refl, ap, ◌∙◌, true, not, none,
  arith,
}
use proxy_go.Prelude.Int.{ℤ, pos, negsuc, pos_part, sub_ℕ, ◌+ℤ◌, ◌-ℤ◌}
use proxy_go.Proxy.Limiter.{TokenBucket, Limiter, unit, refill, spend_token, visit, serve_bucket}

abbrev pub bucket : ℕ → ℕ → TokenBucket
bucket n last = record { tokens = pos n; last = last }

-- what is in the bucket after the refill, if the clock did not run backwards
abbrev pub filled : Limiter → ℕ → ℕ → ℕ → ℕ
filled l n last now =
    let grown = n + (now * l.rps - last * l.rps) in
    if ltb (pos_part l.burst) grown then pos_part l.burst else grown

holds_lem : (z : ℤ) → unit ≤ pos_part z → z ≡ pos (pos_part z)
holds_lem (pos n) h = refl
holds_lem (negsuc n) h = absurd (omega arith)

ahead : (n a b : ℕ) → b ≤ a → pos n +ℤ sub_ℕ a b ≡ pos (n + (a - b))
unfolding ◌+ℤ◌
ahead n a b h = ground arith

full_bucket : (l : Limiter) → unit ≤ pos_part l.burst → l.burst ≡ pos (pos_part l.burst)
full_bucket l h = holds_lem l.burst h

refill_lem :
    (l : Limiter) (n last now : ℕ)
    → unit ≤ pos_part l.burst
    → last * l.rps ≤ now * l.rps
    → refill l (bucket n last) now ≡ pos (filled l n last now)
unfolding refill
refill_lem l n last now c h =
    rw (ahead n (now * l.rps) (last * l.rps) h) (ground (arith, full_bucket l c))

abbrev pub left : ℕ → ℕ
left n = if ltb n unit then n else n - unit

spend_token_lem : (f now : ℕ) → spend_token (pos f) now ≡ (not (ltb f unit), bucket (left f) now)
unfolding spend_token ◌-ℤ◌
spend_token_lem f now = ground arith

pub visit_lem :
    (l : Limiter) (n last now : ℕ)
    → unit ≤ pos_part l.burst
    → last * l.rps ≤ now * l.rps
    → visit l (bucket n last) now
      ≡ (not (ltb (filled l n last now) unit), bucket (left (filled l n last now)) now)
visit_lem l n last now c h =
    let e = refill_lem l n last now c h in
    unfold visit in (ap (λ t. spend_token t now) e ∙ spend_token_lem (filled l n last now) now)

pub serve_bucket-none :
    (l : Limiter) (now : ℕ)
    → unit ≤ pos_part l.burst
    → serve_bucket l none now ≡ (true, bucket (pos_part l.burst - unit) now)
unfolding serve_bucket ◌-ℤ◌
serve_bucket-none l now h = ground (arith, full_bucket l h)

-- A visit after the last one keeps the capacity, and what it spends and leaves comes from what was
-- there and what the time has added.
pub visit_budget :
    (l : Limiter) (n last now : ℕ)
    → n ≤ pos_part l.burst
    → last * l.rps ≤ now * l.rps
    → (left (filled l n last now) ≤ pos_part l.burst)
      × ((if not (ltb (filled l n last now) unit) then unit else 0)
            + left (filled l n last now)
            + last * l.rps
          ≤ n + now * l.rps)
visit_budget l n last now c h = ground arith
