-- ===== src/Proxy/Pool.antt =====
-- internal/proxy/upstream.go: the pool of upstreams and its round robin. `next` is a uint64 that
-- is read and bumped in one atomic step.
pub mod Fairness
pub mod Parsing
mod Tests
use proxy_go.Prelude.{
  if◌then◌else◌, length, is_empty, get_elem?, Text, nat_eq, text_eq, ℕ, zero, suc, ◌+◌, ◌%◌, ◌^◌,
  not, Option, none, some, List, [], ◌∷◌, ◌++◌,
}
use proxy_go.Text.{codes, contains_text}
use proxy_go.Config.Site.{Url}

abbrev pub u64 : ℕ
u64 = 2 ^ 64

pub record Pool : Type 0 where
  pub upstreams : List Url
  pub next : ℕ

module _ (parse_url : Text → Option Url) where
  unfoldable pub parse_upstream : Text → Option Url
  parse_upstream raw =
      if not (contains_text raw (codes "://"))
      then parse_url (codes "http://" ++ raw)
      else parse_url raw

  -- the loop over the raw upstreams; `none` is an error
  pub parse_all : List Text → Option (List Url)
  unfolding parse_upstream
  parse_all [] = some []
  parse_all (raw ∷ raws) = elim (parse_upstream raw) [
    | none ↦ none
    | some u ↦ elim (parse_all raws) [ none ↦ none | some us ↦ some (u ∷ us) ]
  ]

  unfoldable pub new_pool : List Text → Option Pool
  unfolding parse_all
  new_pool raws = elim (parse_all raws) [
    | none ↦ none
    | some us ↦ some (record { upstreams = us; next = 0 })
  ]

unfoldable pub size : Pool → ℕ
size p = length p.upstreams

-- `none` is the nil of an empty pool
unfoldable pub next_url : Pool → Option Url × Pool
next_url p = if is_empty p.upstreams then (none, p) else (
  get_elem? p.upstreams (p.next % length p.upstreams),
  record p { next = (p.next + 1) % u64 },
)

-- the urls of `n` calls in a row, and the pool after them
unfoldable pub next_urls : ℕ → Pool → List (Option Url) × Pool
unfolding next_url
next_urls zero p = ([], p)
next_urls (suc n) p = let (u, q) = next_url p in let (us, r) = next_urls n q in (u ∷ us, r)
