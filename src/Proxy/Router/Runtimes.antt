-- ===== src/Proxy/Router/Runtimes.antt =====
-- Which site's pool and limiter a reload stores under a name.
use mathlib.Core.Option
use proxy_go.Proxy.Router.{SiteRuntime, Router, runtime_of, insert_names, reload_sites, reload}
use proxy_go.Proxy.Pool.{new_pool}
use proxy_go.Config.Store.{Store, host_key, lookup_host, replace}
use proxy_go.Config.Store.Routing.{serves, lookup_host-replace_iff}
use proxy_go.Config.Site.{Site, Url, all_domains}
use proxy_go.Prelude.{
  if◌then◌else◌, Bool-cases, Option-cases, length, get_elem?, length-append, contains,
  get_elem?-append_new, get_elem?-append_old, Text, nat_eq, text_eq, ℕ, ◌<◌, ◌≡◌, refl, ap, ◌∙◌,
  inl, inr, Bool, true, false, ◌&&◌, Option, none, some, List, [], ◌∷◌, ◌++◌, arith,
}
use proxy_go.Dict.{Dict, lookup, insert, lookup-insert}

-- the site of the runtime that a pointer leads to
abbrev pub site_at : List SiteRuntime → Option ℕ → Option Site
site_at heap none = none
site_at heap (some p) = Option.map (λ rt. rt.site) (get_elem? heap p)

-- every pointer of the map leads into the heap
abbrev IsClosed : List SiteRuntime → Dict Text ℕ → Type 0
IsClosed heap next = (key : Text) (p : ℕ) → lookup key next ≡ some p → p < length heap

lookup-insert_names :
    (p : ℕ) (names : List Text) (next : Dict Text ℕ) (key : Text)
    → lookup key (insert_names p names next)
      ≡ (if contains names key then some p else lookup key next)
unfolding insert_names
lookup-insert_names p [] next key = refl
lookup-insert_names p (a ∷ names) next key =
    ground (arith, lookup-insert_names p names (insert a p next) key, lookup-insert a key p next)

-- the map after a site has been stored under its names
abbrev pub stored : ℕ → Site → Dict Text ℕ → Dict Text ℕ
stored p s next = insert_names p s.aliases (insert s.domain p next)

pub lookup-stored :
    (p : ℕ) (s : Site) (next : Dict Text ℕ) (key : Text)
    → lookup key (stored p s next)
      ≡ (if contains (all_domains s) key then some p else lookup key next)
unfolding all_domains
lookup-stored p s next key = ground (
  arith,
  lookup-insert_names p s.aliases (insert s.domain p next) key,
  lookup-insert s.domain key p next,
)

IsClosed-stored :
    (s : Site) (rt : SiteRuntime) (heap : List SiteRuntime) (next : Dict Text ℕ)
    → IsClosed heap next
    → IsClosed (heap ++ rt ∷ []) (stored (length heap) s next)
IsClosed-stored s rt heap next closed key p e = elim (Bool-cases (contains (all_domains s) key)) [
  | inl named ↦ ground (arith, lookup-stored (length heap) s next key, length-append heap (rt ∷ []))
  | inr other ↦
      let old : lookup key next ≡ some p = ground (arith, lookup-stored (length heap) s next key) in
      let fits = closed key p old in omega (arith, length-append heap (rt ∷ []))
]

site_at-grow :
    (heap : List SiteRuntime) (rt : SiteRuntime) (next : Dict Text ℕ) (key : Text)
    → IsClosed heap next
    → site_at (heap ++ rt ∷ []) (lookup key next) ≡ site_at heap (lookup key next)
site_at-grow heap rt next key closed = elim (Option-cases (lookup key next)) [
  | inl missing ↦ rw missing
  | inr (p, found) ↦
      rw found
        (ap (Option.map (λ t. t.site)) (get_elem?-append_old heap (rt ∷ []) p (closed key p found)))
]

site_at-stored :
    (s : Site) (rt : SiteRuntime) (heap : List SiteRuntime) (next : Dict Text ℕ) (key : Text)
    → rt.site ≡ s
    → IsClosed heap next
    → site_at (heap ++ rt ∷ []) (lookup key (stored (length heap) s next))
      ≡ (if contains (all_domains s) key then some s else site_at heap (lookup key next))
site_at-stored s rt heap next key e closed =
    rw (lookup-stored (length heap) s next key) (elim (Bool-cases (contains (all_domains s) key)) [
      | inl named ↦
          rw named (ap (Option.map (λ t. t.site)) (get_elem?-append_new heap rt []) ∙ ap some e)
      | inr other ↦ rw other (site_at-grow heap rt next key closed)
    ])

module _ (parse_url : Text → Option Url) where
  -- a site is stored if it is enabled and its upstreams parse
  abbrev pub is_stored : Site → Bool
  is_stored s =
      s.enabled && (elim (new_pool parse_url s.upstreams) [ none ↦ false | some _ ↦ true ])

  -- the last stored site with that very name, or what was there before
  abbrev pub last_named : Text → Option Site → List Site → Option Site
  last_named key found [] = found
  last_named key found (s ∷ sites) =
      last_named key (if is_stored s && contains (all_domains s) key then some s else found) sites

  site_at-reload_sites :
      (sites : List Site) (heap : List SiteRuntime) (next : Dict Text ℕ) (key : Text)
      → IsClosed heap next
      → (let (heap', next') = reload_sites parse_url sites heap next in
          site_at heap' (lookup key next') ≡ last_named key (site_at heap (lookup key next)) sites)
  unfolding reload_sites
  site_at-reload_sites [] heap next key closed = refl
  site_at-reload_sites (s ∷ sites) heap next key closed = elim (Bool-cases s.enabled) [
    | inr off ↦ simp off (site_at-reload_sites sites heap next key closed)
    | inl on ↦ elim (Option-cases (new_pool parse_url s.upstreams)) [
      | inl bad ↦ simp (on, bad) (site_at-reload_sites sites heap next key closed)
      | inr (pool, good) ↦
          simp (on, good)
            (site_at-reload_sites sites (heap ++ runtime_of s pool ∷ [])
                (stored (length heap) s next) key
                (IsClosed-stored s (runtime_of s pool) heap next closed)
              ∙ ap (λ f. last_named key f sites)
                  (site_at-stored s (runtime_of s pool) heap next key refl closed))
    ]
  ]

  -- After a reload the runtime under a name belongs to the last site of the list that is enabled,
  -- has upstreams that parse and has that name, in that spelling.
  pub site_at-reload :
      (sites : List Site) (r : Router) (key : Text)
      → site_at (reload parse_url sites r).heap (lookup key (reload parse_url sites r).runtimes)
        ≡ last_named key none sites
  unfolding reload lookup
  site_at-reload sites r key = site_at-reload_sites sites [] [] key (λ k p e. cc)

  -- Two enabled sites with upstreams that parse collide if the later one lists the domain of the
  -- earlier: a host that only the earlier one serves is routed to it, and yet the pool and the
  -- limiter under its domain are those of the later site.
  pub collision_lem :
      (a b : Site) (st : Store Site) (r : Router) (host : Text)
      → is_stored a ≡ true
      → is_stored b ≡ true
      → contains (all_domains b) a.domain ≡ true
      → serves a (host_key host) ≡ true
      → serves b (host_key host) ≡ false
      → (lookup_host (replace (λ s. s) st (a ∷ b ∷ [])) host ≡ some a)
        × (let r' = reload parse_url (a ∷ b ∷ []) r in
            site_at r'.heap (lookup a.domain r'.runtimes) ≡ some b)
  collision_lem a b st r host a_ok b_ok stolen mine other = (
    (lookup_host-replace_iff (λ s. s) st (a ∷ b ∷ []) host a).1
        (record { before = []; after = b ∷ []; parts = refl; serving = mine; last = (other, tt) }),
    site_at-reload (a ∷ b ∷ []) r a.domain ∙ ground (arith, a_ok, b_ok, stolen),
  )
