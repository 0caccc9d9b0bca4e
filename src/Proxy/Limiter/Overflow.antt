-- ===== src/Proxy/Limiter/Overflow.antt =====
-- A limiter without a whole token, as the overflow of rps + burst makes it.
use proxy_go.Prelude.{
  Bool-cases, ◌==◌, Text, nat_eq, text_eq, ℕ, ◌+◌, ◌^◌, ◌≤◌, ◌<◌, ◌≡◌, refl, ap, ◌∙◌, inl, inr,
  false, none, some, List, [], ◌∷◌, arith,
}
use proxy_go.Prelude.Int.{ℤ, pos_part}
use proxy_go.Dict.{lookup}
use proxy_go.Proxy.Limiter.{
  TokenBucket, Limiter, new_limiter, refill, spend_token, visit, serve_bucket, allow,
}
use proxy_go.Proxy.Limiter.Run.{
  Request, granted, rates-allow, granted_other, granted_own, serve_bucket-some,
}
use proxy_go.Proxy.Limiter.Capacity.{new_limiter_fields, overflow-IsMade}

refill_le :
    (l : Limiter) (tb : TokenBucket) (now : ℕ) → pos_part (refill l tb now) ≤ pos_part l.burst
unfolding refill
refill_le l tb now = ground arith

-- without a whole token in the burst no refill makes one
visit-dry :
    (l : Limiter) (tb : TokenBucket) (now : ℕ) → pos_part l.burst ≡ 0 → (visit l tb now).0 ≡ false
unfolding visit spend_token
visit-dry l tb now dry = ground (arith, refill_le l tb now)

granted_none :
    (k : Text) (rs : List Request) (l : Limiter) (tb : TokenBucket)
    → lookup k l.bs ≡ some tb
    → pos_part l.burst ≡ 0
    → granted k rs l ≡ 0
unfolding granted
granted_none k [] l tb e dry = refl
granted_none k (r ∷ rs) l tb e dry = elim (Bool-cases (r.key == k)) [
  | inl own ↦
      let (same, count) = granted_own k r l rs own in
      let (rps, burst) = rates-allow k r l in
      let refused : (serve_bucket l (lookup k l.bs) r.now).0 ≡ false =
        ap (λ o. (serve_bucket l o r.now).0) e
        ∙ ap (λ q. q.0) (serve_bucket-some l tb r.now)
        ∙ visit-dry l tb r.now dry in
      let rest = granted_none k rs (allow r.key r.now l).1 _ same (rw burst dry) in
      rw (count, refused) (omega (arith, rest))
  | inr other ↦
      let (same, count) = granted_other k r l rs other in
      let (rps, burst) = rates-allow k r l in
      rw count (granted_none k rs (allow r.key r.now l).1 tb (same ∙ e) (rw burst dry))
]

-- the first request of a client passes all the same
pub granted_once :
    (k : Text) (rs : List Request) (l : Limiter)
    → lookup k l.bs ≡ none
    → pos_part l.burst ≡ 0
    → granted k rs l ≤ 1
unfolding granted
granted_once k [] l e dry = omega arith
granted_once k (r ∷ rs) l e dry = elim (Bool-cases (r.key == k)) [
  | inl own ↦
      let (same, count) = granted_own k r l rs own in
      let (rps, burst) = rates-allow k r l in
      let rest = granted_none k rs (allow r.key r.now l).1 _ same (rw burst dry) in
      rw (count, rest) (ground arith)
  | inr other ↦
      let (same, count) = granted_other k r l rs other in
      let (rps, burst) = rates-allow k r l in
      rw count (granted_once k rs (allow r.key r.now l).1 (same ∙ e) (rw burst dry))
]

-- If rps + burst overflows an int64, a client is let through once at most, however long it waits
-- between its requests.
pub granted-overflow :
    (rps burst : ℤ) (l : Limiter) (k : Text) (rs : List Request)
    → new_limiter rps burst ≡ some l
    → 2 ^ 63 ≤ pos_part rps + pos_part burst
    → pos_part rps + pos_part burst < 2 ^ 64
    → granted k rs l ≤ 1
granted-overflow rps burst l k rs e big small =
    let m = new_limiter_fields rps burst l e in
    let empty : lookup k l.bs ≡ none = rw m.no_buckets (unfold lookup in refl) in
    granted_once k rs l empty (overflow-IsMade rps burst l m big small)
