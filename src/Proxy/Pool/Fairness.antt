-- ===== src/Proxy/Pool/Fairness.antt =====
-- The round robin gives every upstream its turn.
use native.Mathlib.Nat.{mod-lt, mod-eq_of_lt, mod-add-mod, mod-eq-sub-mod}
use proxy_go.Prelude.{
  ltb, leb, if◌then◌else◌, ltb→lt, Bool-cases, length, get_elem?, nat_eq, text_eq, ℕ, zero, suc,
  ◌+◌, ◌-◌, ◌%◌, ◌≤◌, ◌<◌, ◌≡◌, sym, ap, ◌∙◌, ◌≢◌, inl, inr, some, [], arith,
}
use proxy_go.Proxy.Pool.{Pool, u64, next_url, next_urls}

next_url_lem :
    (p : Pool)
    → p.upstreams ≢ []
    → p.next + 1 < u64
    → next_url p
      ≡ (get_elem? p.upstreams (p.next % length p.upstreams), record p { next = p.next + 1 })
unfolding next_url
next_url_lem p k w = ground arith

-- The i-th of `n` calls in a row on a pool that is not empty returns the upstream at (next + i)
-- mod size, as long as the counter does not wrap.
pub get_elem?-next_urls :
    (n i : ℕ) (p : Pool)
    → i < n
    → p.upstreams ≢ []
    → p.next + n < u64
    → get_elem? (next_urls n p).0 i
      ≡ some (get_elem? p.upstreams ((p.next + i) % length p.upstreams))
unfolding next_urls
get_elem?-next_urls zero i p h k w = elim h [ ]
get_elem?-next_urls (suc n) zero p h k w =
    rw (next_url_lem p k (omega arith))
      (ap (λ m. some (get_elem? p.upstreams (m % length p.upstreams))) (omega arith))
get_elem?-next_urls (suc n) (suc i) p h k w = rw (next_url_lem p k (omega arith)) (
    get_elem?-next_urls n i (record p { next = p.next + 1 }) (omega arith) k (omega arith)
    ∙ ap (λ m. some (get_elem? p.upstreams (m % length p.upstreams))) (omega arith))

-- the call of a round that reaches index `j`
abbrev turn : ℕ → ℕ → ℕ → ℕ
turn c s j = if leb (c % s) j then j - c % s else j + s - c % s

-- below twice the modulus a remainder is found by one subtraction
mod_below_double : (a s : ℕ) → a < s + s → a % s ≡ (if ltb a s then a else a - s)
mod_below_double a s h = elim (Bool-cases (ltb a s)) [
  | inl small ↦ rw small (mod-eq_of_lt (ltb→lt a s small))
  | inr large ↦
      let reach : s ≤ a = ground arith in
      rw large (mod-eq-sub-mod reach ∙ mod-eq_of_lt (omega arith))
]

turn_bounds : (c s j : ℕ) → j < s → turn c s j < s
turn_bounds c s j h = let r : c % s < s = mod-lt c (omega arith) in ground arith

turn_lem : (c s j : ℕ) → j < s → (c + turn c s j) % s ≡ j
turn_lem c s j h =
    let r : c % s < s = mod-lt c (omega arith) in
    let i = turn c s j in
    let b : i < s = turn_bounds c s j h in
    sym (mod-add-mod c s i) ∙ mod_below_double (c % s + i) s (omega arith) ∙ ground arith

turn_unique : (c s j i : ℕ) → i < s → (c + i) % s ≡ j → i ≡ turn c s j
turn_unique c s j i h e =
    let r : c % s < s = mod-lt c (omega arith) in
    let e' : (c % s + i) % s ≡ j = mod-add-mod c s i ∙ e in
    let w = mod_below_double (c % s + i) s (omega arith) in ground (arith, w, e')

-- In a round of as many calls as there are upstreams, in which the counter does not wrap, each
-- upstream has exactly one turn: there is one call of the round that picks its index.
pub next_urls-round :
    (p : Pool) (j : ℕ)
    → j < length p.upstreams
    → p.next + length p.upstreams < u64
    → (i : ℕ) × (i < length p.upstreams)
      × (get_elem? (next_urls (length p.upstreams) p).0 i ≡ some (get_elem? p.upstreams j))
      × ((k : ℕ) → k < length p.upstreams → (p.next + k) % length p.upstreams ≡ j → k ≡ i)
next_urls-round p j h w =
    let s = length p.upstreams in
    let i = turn p.next s j in
    let given : p.upstreams ≢ [] = λ e. ground (arith, ap length e) in
    (
      i,
      turn_bounds p.next s j h,
      get_elem?-next_urls s i p (turn_bounds p.next s j h) given w
          ∙ ap (λ m. some (get_elem? p.upstreams m)) (turn_lem p.next s j h),
      λ k hk e. turn_unique p.next s j k hk e,
    )
