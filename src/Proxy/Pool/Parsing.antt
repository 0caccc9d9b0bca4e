-- ===== src/Proxy/Pool/Parsing.antt =====
-- The urls of a pool are those of the raw upstreams, in order.
use proxy_go.Prelude.{
  Bool-cases, Option-cases, length, is_empty, get_elem?, is_empty_iff, get_elem?-lt, Text, nat_eq,
  text_eq, ℕ, zero, suc, ◌%◌, ◌<◌, ◌≡◌, refl, ap, ◌∙◌, inl, inr, false, Option, none, some, List,
  [], ◌∷◌, arith,
}
use native.Mathlib.Nat.{mod-lt}
use proxy_go.Config.Site.{Url}
use proxy_go.Proxy.Pool.{Pool, parse_upstream, parse_all, new_pool, next_url}

module _ (parse_url : Text → Option Url) where
  pub parse_all_sound :
      (raws : List Text) (us : List Url) (i : ℕ) (u : Url)
      → parse_all parse_url raws ≡ some us
      → get_elem? us i ≡ some u
      → (raw : Text) × (get_elem? raws i ≡ some raw) × (parse_upstream parse_url raw ≡ some u)
  unfolding parse_all
  parse_all_sound [] [] i u h found = absurd (ground (arith, found))
  parse_all_sound [] (v ∷ us) i u h found = absurd (ground (arith, h))
  parse_all_sound (raw ∷ raws) [] i u h found = absurd (ground (arith, found))
  parse_all_sound (raw ∷ raws) (v ∷ us) zero u h found =
      elim (Option-cases (parse_upstream parse_url raw)) [
        | inl bad ↦ absurd (ground (arith, h))
        | inr (x, good) ↦ elim (Option-cases (parse_all parse_url raws)) [
          | inl bad ↦ absurd (ground (arith, h))
          | inr (xs, rest) ↦ (raw, refl, ground (arith, h, found))
        ]
      ]
  parse_all_sound (raw ∷ raws) (v ∷ us) (suc i) u h found =
      elim (Option-cases (parse_upstream parse_url raw)) [
        | inl bad ↦ absurd (ground (arith, h))
        | inr (x, good) ↦ elim (Option-cases (parse_all parse_url raws)) [
          | inl bad ↦ absurd (ground (arith, h))
          | inr (xs, rest) ↦
              let same : xs ≡ us = ground (arith, h) in
              parse_all_sound raws us i u (rest ∙ ap some same) found
        ]
      ]

  pub parse_all-new_pool :
      (raws : List Text) (p : Pool)
      → new_pool parse_url raws ≡ some p
      → parse_all parse_url raws ≡ some p.upstreams
  unfolding new_pool
  parse_all-new_pool raws p h = elim (Option-cases (parse_all parse_url raws)) [
    | inl bad ↦ absurd (ground arith)
    | inr (us, good) ↦
        let made : record { upstreams = us; next = 0 } ≡ p = ground arith in
        good ∙ ap (λ q. some q.upstreams) made
  ]

  pub parse_all-empty : (raws : List Text) → parse_all parse_url raws ≡ some [] → raws ≡ []
  unfolding parse_all
  parse_all-empty [] h = refl
  parse_all-empty (raw ∷ raws) h = elim (Option-cases (parse_upstream parse_url raw)) [
    | inl bad ↦ absurd (ground arith)
    | inr (x, good) ↦ elim (Option-cases (parse_all parse_url raws)) [
      | inl bad ↦ absurd (ground arith)
      | inr (xs, rest) ↦ absurd (ground arith)
    ]
  ]

-- the pick of a pool is one of its urls, and leaves them as they are
pub next_url_sound :
    (p : Pool) (u : Url)
    → (next_url p).0 ≡ some u
    → get_elem? p.upstreams (p.next % length p.upstreams) ≡ some u
unfolding next_url
next_url_sound p u h = ground arith

pub upstreams-next_url : (p : Pool) → (next_url p).1.upstreams ≡ p.upstreams
unfolding next_url
upstreams-next_url p = ground arith

length_pos : (us : List Url) → is_empty us ≡ false → 0 < length us
length_pos [] h = absurd (ground arith)
length_pos (u ∷ us) h = omega arith

-- a pool picks nothing only if it is empty
pub next_url-none : (p : Pool) → (next_url p).0 ≡ none → p.upstreams ≡ []
unfolding next_url
next_url-none p h = elim (Bool-cases (is_empty p.upstreams)) [
  | inl dry ↦ (is_empty_iff p.upstreams).0 dry
  | inr some_left ↦
      let room : p.next % length p.upstreams < length p.upstreams =
        mod-lt p.next (length_pos p.upstreams some_left) in
      let (u, found) = get_elem?-lt p.upstreams (p.next % length p.upstreams) room in
      absurd (ground arith)
]
