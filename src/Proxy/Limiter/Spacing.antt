-- ===== src/Proxy/Limiter/Spacing.antt =====
-- A client that keeps to the rate is never refused.
use proxy_go.Prelude.{
  ltb, if◌then◌else◌, Bool-cases, ◌==◌, Text, nat_eq, text_eq, ℕ, ◌+◌, ◌-◌, ◌*◌, ◌^◌, ◌≤◌, ◌<◌, ◌≡◌,
  refl, ap, ◌∙◌, inl, inr, false, Option, none, some, List, [], ◌∷◌, arith,
}
use proxy_go.Prelude.Int.{ℤ, pos_part}
use proxy_go.Dict.{lookup}
use proxy_go.Proxy.Limiter.{Limiter, unit, new_limiter, serve_bucket, allow}
use proxy_go.Proxy.Limiter.Run.{
  Request, granted, requests, rates-allow, granted_other, granted_own, serve_bucket-some,
}
use proxy_go.Proxy.Limiter.Capacity.{new_limiter_fields, room-IsMade}
use proxy_go.Proxy.Limiter.Bound.{bucket, filled, left, visit_lem, serve_bucket-none, visit_budget}

-- From one request of the client to its next the rate adds a token at least. `last` is the time of
-- the request before, if there was one.
abbrev pub IsSpaced : Text → ℕ → Option ℕ → List Request → Type 0
IsSpaced k rps last [] = Unit
IsSpaced k rps none (r ∷ rs) =
    if r.key == k then IsSpaced k rps (some r.now) rs else IsSpaced k rps none rs
IsSpaced k rps (some last) (r ∷ rs) =
    if r.key == k
    then ((last * rps + unit ≤ r.now * rps) × IsSpaced k rps (some r.now) rs)
    else IsSpaced k rps (some last) rs

granted_spaced_again :
    (k : Text) (rs : List Request) (l : Limiter) (n last : ℕ)
    → lookup k l.bs ≡ some (bucket n last)
    → n ≤ pos_part l.burst
    → unit ≤ pos_part l.burst
    → IsSpaced k l.rps (some last) rs
    → granted k rs l ≡ requests k rs
unfolding granted requests
granted_spaced_again k [] l n last e c room h = refl
granted_spaced_again k (r ∷ rs) l n last e c room h = elim (Bool-cases (r.key == k)) [
  | inl own ↦
      let (same, count) = granted_own k r l rs own in
      let (rps, burst) = rates-allow k r l in
      let (gap, later) = rw own at h in
      let grown : last * l.rps ≤ r.now * l.rps = omega arith in
      let (capped, paid) = visit_budget l n last r.now c grown in
      let full : ltb (filled l n last r.now) unit ≡ false = ground arith in
      let served =
        ap (λ o. serve_bucket l o r.now) e
        ∙ serve_bucket-some l (bucket n last) r.now
        ∙ visit_lem l n last r.now room grown in
      let ih =
        granted_spaced_again k rs (allow r.key r.now l).1 (left (filled l n last r.now)) r.now
          (same ∙ ap (λ q. some q.1) served) (rw burst capped) (rw burst room) (rw rps later) in
      rw (count, served, full, own) (ap (λ m. 1 + m) ih)
  | inr other ↦
      let (same, count) = granted_other k r l rs other in
      let (rps, burst) = rates-allow k r l in
      let ih =
        granted_spaced_again k rs (allow r.key r.now l).1 n last (same ∙ e) (rw burst c)
          (rw burst room) (rw rps (rw other at h)) in
      rw (count, other) (omega (arith, ih))
]

granted_spaced_fresh :
    (k : Text) (rs : List Request) (l : Limiter)
    → lookup k l.bs ≡ none
    → unit ≤ pos_part l.burst
    → IsSpaced k l.rps none rs
    → granted k rs l ≡ requests k rs
unfolding granted requests
granted_spaced_fresh k [] l e room h = refl
granted_spaced_fresh k (r ∷ rs) l e room h = elim (Bool-cases (r.key == k)) [
  | inl own ↦
      let (same, count) = granted_own k r l rs own in
      let (rps, burst) = rates-allow k r l in
      let later = rw own at h in
      let served = ap (λ o. serve_bucket l o r.now) e ∙ serve_bucket-none l r.now room in
      let ih =
        granted_spaced_again k rs (allow r.key r.now l).1 (pos_part l.burst - unit) r.now
          (same ∙ ap (λ q. some q.1) served) (rw burst (omega arith)) (rw burst room)
          (rw rps later) in
      rw (count, served, own) (ap (λ m. 1 + m) ih)
  | inr other ↦
      let (same, count) = granted_other k r l rs other in
      let (rps, burst) = rates-allow k r l in
      let ih =
        granted_spaced_fresh k rs (allow r.key r.now l).1 (same ∙ e) (rw burst room)
          (rw rps (rw other at h)) in
      rw (count, other) (omega (arith, ih))
]

-- From a limiter made by `NewLimiter` a client is let through every time, whatever the other
-- clients do, if between two of its requests the rate adds one token at least, and rps + burst fits
-- an int64.
pub granted-eq-requests :
    (rps burst : ℤ) (l : Limiter) (k : Text) (rs : List Request)
    → new_limiter rps burst ≡ some l
    → pos_part rps + pos_part burst < 2 ^ 63
    → IsSpaced k (pos_part rps) none rs
    → granted k rs l ≡ requests k rs
granted-eq-requests rps burst l k rs e fits h =
    let m = new_limiter_fields rps burst l e in
    let empty : lookup k l.bs ≡ none = rw m.no_buckets (unfold lookup in refl) in
    granted_spaced_fresh k rs l empty (room-IsMade rps burst l m fits) (rw m.rate h)
