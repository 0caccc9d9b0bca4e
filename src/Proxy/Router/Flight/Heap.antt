-- ===== src/Proxy/Router/Flight/Heap.antt =====
-- The runtimes that requests hold: a reload adds new ones behind them, and no access moves one.
use proxy_go.Prelude.{
  Bool-cases, Option-cases, length, get_elem?, set, All, All-append, contains, get_elem?-append_new,
  get_elem?-append_old, get_elem?-set_other, get_elem?-set_same, get_elem?-bound, ◌==◌, Text,
  nat_eq, text_eq, beq_refl, eq_of_beq, ℕ, ◌≡◌, refl, ap, ◌∙◌, inl, inr, true, Option, some, List,
  [], ◌∷◌, ◌++◌, arith,
}
use proxy_go.Dict.{Dict, lookup}
use proxy_go.Config.Site.{Site, Url, all_domains}
use proxy_go.Proxy.Pool.{Pool, new_pool}
use proxy_go.Proxy.Router.{SiteRuntime, runtime_of, reload_sites}
use proxy_go.Proxy.Router.Runtimes.{stored, lookup-stored}

-- every runtime of the first heap stands at its place in the second, for the same site
abbrev pub Extends : List SiteRuntime → List SiteRuntime → Type 0
Extends heap heap' =
    (p : ℕ) (rt : SiteRuntime)
    → get_elem? heap p ≡ some rt
    → (rt' : SiteRuntime) × (get_elem? heap' p ≡ some rt') × (rt'.site ≡ rt.site)

pub Extends-refl : (heap : List SiteRuntime) → Extends heap heap
Extends-refl heap p rt here = (rt, here, refl)

pub Extends-trans : (a b c : List SiteRuntime) → Extends a b → Extends b c → Extends a c
Extends-trans a b c ab bc p rt here =
    let (rt', there, same) = ab p rt here in
    let (rt'', beyond, same') = bc p rt' there in (rt'', beyond, same' ∙ same)

pub Extends-append : (heap more : List SiteRuntime) → Extends heap (heap ++ more)
Extends-append heap more p rt here =
    (rt, get_elem?-append_old heap more p (get_elem?-bound heap p rt here) ∙ here, refl)

pub Extends-set :
    (heap : List SiteRuntime) (p : ℕ) (old new : SiteRuntime)
    → get_elem? heap p ≡ some old
    → new.site ≡ old.site
    → Extends heap (set heap p new)
Extends-set heap p old new there same q rt here = elim (Bool-cases (q == p)) [
  | inl same_place ↦
      let e = eq_of_beq q p same_place in
      let at : get_elem? heap p ≡ some rt = rw e at here in
      let one : old ≡ rt = ground (arith, there, at) in
      (new, rw e (get_elem?-set_same heap p new old there), same ∙ ap (λ t. t.site) one)
  | inr apart ↦
      (rt, get_elem?-set_other heap p q new (λ e. ground (arith, beq_refl q)) ∙ here, refl)
]

-- a place whose runtime has the name among the names of its site
abbrev pub IsNamed : List SiteRuntime → Text → ℕ → Type 0
IsNamed heap d p =
    (rt : SiteRuntime) × (get_elem? heap p ≡ some rt) × (contains (all_domains rt.site) d ≡ true)

pub IsNamed-Extends :
    (a b : List SiteRuntime) (d : Text) (p : ℕ) → Extends a b → IsNamed a d p → IsNamed b d p
IsNamed-Extends a b d p e (rt, here, named) =
    let (rt', there, same) = e p rt here in
    (rt', there, ap (λ s. contains (all_domains s) d) same ∙ named)

-- every name of the map leads to a runtime with that name
abbrev pub IsNaming : List SiteRuntime → Dict Text ℕ → Type 0
IsNaming heap next = (d : Text) (p : ℕ) → lookup d next ≡ some p → IsNamed heap d p

pub IsNaming-Extends :
    (a b : List SiteRuntime) (next : Dict Text ℕ) → Extends a b → IsNaming a next → IsNaming b next
IsNaming-Extends a b next e n d p found = IsNamed-Extends a b d p e (n d p found)

module _ (parse_url : Text → Option Url) where
  IsNaming-stored :
      (s : Site) (pool : Pool) (heap : List SiteRuntime) (next : Dict Text ℕ)
      → IsNaming heap next
      → IsNaming (heap ++ runtime_of s pool ∷ []) (stored (length heap) s next)
  IsNaming-stored s pool heap next n d p found =
      let grown = heap ++ runtime_of s pool ∷ [] in
      elim (Bool-cases (contains (all_domains s) d)) [
        | inl named ↦
            let at : length heap ≡ p = ground (arith, lookup-stored (length heap) s next d) in
            (runtime_of s pool, rw (← at) (get_elem?-append_new heap (runtime_of s pool) []), named)
        | inr other ↦
            let old : lookup d next ≡ some p =
              ground (arith, lookup-stored (length heap) s next d) in
            IsNamed-Extends heap grown d p (Extends-append heap (runtime_of s pool ∷ []))
              (n d p old)
      ]

  -- the loop of `Reload` keeps what stands in the heap, and names what it adds
  pub reload_sites_lem :
      (sites : List Site) (heap : List SiteRuntime) (next : Dict Text ℕ)
      → IsNaming heap next
      → (let (heap', next') = reload_sites parse_url sites heap next in
          Extends heap heap' × IsNaming heap' next')
  unfolding reload_sites
  reload_sites_lem [] heap next n = (Extends-refl heap, n)
  reload_sites_lem (s ∷ sites) heap next n = elim (Bool-cases s.enabled) [
    | inr off ↦ simp off (reload_sites_lem sites heap next n)
    | inl on ↦ elim (Option-cases (new_pool parse_url s.upstreams)) [
      | inl bad ↦ simp (on, bad) (reload_sites_lem sites heap next n)
      | inr (pool, good) ↦
          let grown = heap ++ runtime_of s pool ∷ [] in
          let (further, named) =
            reload_sites_lem sites grown (stored (length heap) s next)
              (IsNaming-stored s pool heap next n) in
          simp (on, good)
            (
              Extends-trans heap grown _ (Extends-append heap (runtime_of s pool ∷ [])) further,
              named,
            )
    ]
  ]

  pub given-reload_sites :
      (R : Site → Type 0) (sites : List Site) (heap : List SiteRuntime) (next : Dict Text ℕ)
      → All R sites
      → All (λ rt. R rt.site) heap
      → All (λ rt. R rt.site) (reload_sites parse_url sites heap next).0
  unfolding reload_sites
  given-reload_sites R [] heap next g h = h
  given-reload_sites R (s ∷ sites) heap next (g, gs) h = elim (Bool-cases s.enabled) [
    | inr off ↦ simp off (given-reload_sites R sites heap next gs h)
    | inl on ↦ elim (Option-cases (new_pool parse_url s.upstreams)) [
      | inl bad ↦ simp (on, bad) (given-reload_sites R sites heap next gs h)
      | inr (pool, good) ↦
          simp (on, good)
            (given-reload_sites R sites (heap ++ runtime_of s pool ∷ []) _ gs
              (All-append (λ rt. R rt.site) heap (runtime_of s pool ∷ []) h (g, tt)))
    ]
  ]
