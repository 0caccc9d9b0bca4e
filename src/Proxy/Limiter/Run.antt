-- ===== src/Proxy/Limiter/Run.antt =====
-- A sequence of requests, each with its client and the time that `Allow` reads, and what one step
-- does to the bucket of a client.
use proxy_go.Prelude.{
  if◌then◌else◌, ◌==◌, Text, nat_eq, text_eq, eq_of_beq, ℕ, ◌+◌, ◌≤◌, ◌≡◌, refl, ap, ◌∙◌, true,
  false, ◌&&◌, some, List, [], ◌∷◌, arith,
}
use proxy_go.Dict.{lookup, lookup-insert}
use proxy_go.Proxy.Limiter.{TokenBucket, Limiter, visit, serve_bucket, allow}

pub record Request : Type 0 where
  pub key : Text
  pub now : ℕ

-- how many requests of a client are let through
unfoldable pub granted : Text → List Request → Limiter → ℕ
granted k [] l = 0
granted k (r ∷ rs) l =
    let (ok, l') = allow r.key r.now l in (if r.key == k && ok then 1 else 0) + granted k rs l'

-- how many there are
unfoldable pub requests : Text → List Request → ℕ
requests k [] = 0
requests k (r ∷ rs) = (if r.key == k then 1 else 0) + requests k rs

-- the clock does not run backwards between `lo` and `hi`
abbrev pub InOrder : ℕ → ℕ → List Request → Type 0
InOrder lo hi [] = lo ≤ hi
InOrder lo hi (r ∷ rs) = (lo ≤ r.now) × InOrder r.now hi rs

pub InOrder-le : (lo hi : ℕ) (rs : List Request) → InOrder lo hi rs → lo ≤ hi
InOrder-le lo hi [] h = h
InOrder-le lo hi (r ∷ rs) (now, later) = omega (arith, InOrder-le r.now hi rs later)

pub InOrder-mono : (a b hi : ℕ) (rs : List Request) → a ≤ b → InOrder b hi rs → InOrder a hi rs
InOrder-mono a b hi [] h o = omega arith
InOrder-mono a b hi (r ∷ rs) h (now, later) = (omega arith, later)

module _ (k : Text) (r : Request) (l : Limiter) where
  pub rates-allow :
      ((allow r.key r.now l).1.rps ≡ l.rps) × ((allow r.key r.now l).1.burst ≡ l.burst)
  unfolding allow
  rates-allow = (refl, refl)

  -- a client's bucket is left alone by the requests of the others
  pub lookup-allow :
      lookup k (allow r.key r.now l).1.bs
      ≡ (if r.key == k then some (serve_bucket l (lookup r.key l.bs) r.now).1 else lookup k l.bs)
  unfolding allow
  lookup-allow = lookup-insert r.key k (serve_bucket l (lookup r.key l.bs) r.now).1 l.bs

  pub allow_answer : (allow r.key r.now l).0 ≡ (serve_bucket l (lookup r.key l.bs) r.now).0
  unfolding allow
  allow_answer = refl

  pub lookup-key : (r.key == k) ≡ true → lookup r.key l.bs ≡ lookup k l.bs
  lookup-key h = ap (λ j. lookup j l.bs) (eq_of_beq r.key k h)

  pub granted_other :
      (rs : List Request)
      → (r.key == k) ≡ false
      → (lookup k (allow r.key r.now l).1.bs ≡ lookup k l.bs)
        × (granted k (r ∷ rs) l ≡ granted k rs (allow r.key r.now l).1)
  unfolding granted
  granted_other rs h = (lookup-allow ∙ (rw h), ground arith)

  -- the step of the client itself
  pub granted_own :
      (rs : List Request)
      → (r.key == k) ≡ true
      → (lookup k (allow r.key r.now l).1.bs ≡ some (serve_bucket l (lookup k l.bs) r.now).1)
        × (granted k (r ∷ rs) l
            ≡ (if (serve_bucket l (lookup k l.bs) r.now).0 then 1 else 0)
              + granted k rs (allow r.key r.now l).1)
  unfolding granted
  granted_own rs h = rw (← lookup-key h) (lookup-allow ∙ (rw h), ground (arith, allow_answer))

pub serve_bucket-some :
    (l : Limiter) (tb : TokenBucket) (now : ℕ) → serve_bucket l (some tb) now ≡ visit l tb now
unfolding serve_bucket
serve_bucket-some l tb now = refl
