-- ===== src/Proxy/Router/Built.antt =====
-- Over any sequence of requests, reloads and other steps each runtime keeps the pool of its site.
use proxy_go.Prelude.{
  Bool-cases, Option-cases, get_elem?, set, All, All-append, All-get_elem?, All-set, Text, nat_eq,
  text_eq, ℕ, ◌≡◌, sym, ap, ◌∙◌, inl, inr, Bool, not, ◌&&◌, ◌||◌, Option, some, List, [], ◌∷◌, ◌++◌,
  arith,
}
use proxy_go.Dict.{Dict, lookup}
use proxy_go.Config.Site.{Site, Url}
use proxy_go.Config.Store.{new_store, lookup_host, replace}
use proxy_go.Metrics.Registry.{new_registry, prune}
use proxy_go.Proxy.Pool.{parse_all, new_pool}
use proxy_go.Proxy.Pool.Parsing.{parse_all-new_pool, upstreams-next_url}
use proxy_go.Proxy.Limiter.{allow_opt}
use proxy_go.Proxy.Writer.{Call}
use proxy_go.Proxy.Paths.{is_exploit_path, is_scanner}
use proxy_go.Proxy.Request.{Request, client_ip}
use proxy_go.Proxy.Router.{
  SiteRuntime, Router, Clock, new_router, runtime_of, stop, record_metric, reload_sites, reload,
  forward, limited, find_runtime, serve_site, serve_http,
}

-- the pool of a runtime holds the urls of its site's upstreams, in order
pub record IsBuilt (parse_url : Text → Option Url) (rt : SiteRuntime) : Type 0 where
  pub parsed : parse_all parse_url rt.site.upstreams ≡ some rt.pool.upstreams

module _ (parse_url : Text → Option Url) (split_remote : Text → Option Text)
    (upstream : Request → List Call) where
  -- what can happen to a router: a request, a new list of sites in the store and in the runtimes, a
  -- pruned registry, a stop
  pub data Step : Router → Router → Type 0 where
    request :
        {r : Router} (c : Clock) (req : Request)
        → Step r (serve_http split_remote upstream c req r).1
    replaced :
        {r : Router} (sites : List Site)
        → Step r (record r { store = replace (λ s. s) r.store sites })
    reloaded : {r : Router} (sites : List Site) → Step r (reload parse_url sites r)
    pruned :
        {r : Router} (keep : Text → Bool) → Step r (record r { registry = prune keep r.registry })
    stopped : {r : Router} → Step r (stop r)

  pub data Reach (trust : Bool) : Router → Type 0 where
    fresh : Reach trust (new_router new_store new_registry trust)
    after : {r r' : Router} → Reach trust r → Step r r' → Reach trust r'

  -- every runtime of the heap has the pool of its site
  abbrev pub IsHeapBuilt : Router → Type 0
  IsHeapBuilt r = All (IsBuilt parse_url) r.heap

  pub IsBuilt-reload_sites :
      (sites : List Site) (heap : List SiteRuntime) (names : Dict Text ℕ)
      → All (IsBuilt parse_url) heap
      → All (IsBuilt parse_url) (reload_sites parse_url sites heap names).0
  unfolding reload_sites
  IsBuilt-reload_sites [] heap names h = h
  IsBuilt-reload_sites (s ∷ sites) heap names h = elim (Bool-cases s.enabled) [
    | inr off ↦ simp off (IsBuilt-reload_sites sites heap names h)
    | inl on ↦ elim (Option-cases (new_pool parse_url s.upstreams)) [
      | inl bad ↦ simp (on, bad) (IsBuilt-reload_sites sites heap names h)
      | inr (pool, good) ↦
          let built : IsBuilt parse_url (runtime_of s pool) = record {
            parsed = parse_all-new_pool parse_url s.upstreams pool good;
          } in
          simp (on, good)
            (IsBuilt-reload_sites sites (heap ++ runtime_of s pool ∷ []) _
              (All-append (IsBuilt parse_url) heap (runtime_of s pool ∷ []) h (built, tt)))
    ]
  ]

  IsBuilt-limited :
      (domain : Text) (p : ℕ) (rt : SiteRuntime) (c : Clock) (req : Request) (r : Router)
      → IsHeapBuilt r
      → IsBuilt parse_url rt
      → IsHeapBuilt (limited split_remote upstream domain p rt c req r).1
  unfolding limited forward record_metric
  IsBuilt-limited domain p rt c req r h b =
      let allowed = allow_opt (client_ip split_remote req r.trust_headers) c.now rt.limiter in
      let rt' = record rt { limiter = allowed.1 } in
      let limited_heap = set r.heap p rt' in
      let refused_ok : All (IsBuilt parse_url) limited_heap =
        All-set (IsBuilt parse_url) r.heap p rt' h (record { parsed = b.parsed }) in
      elim (Bool-cases allowed.0) [
        | inr denied ↦ rw denied refused_ok
        | inl granted ↦ rw granted (
            All-set (IsBuilt parse_url) limited_heap p _ refused_ok
              (record { parsed = b.parsed ∙ sym (ap some (upstreams-next_url rt.pool)) }))
      ]

  pub find_runtime_sound :
      (domain : Text) (r : Router) (p : ℕ) (rt : SiteRuntime)
      → find_runtime split_remote upstream domain r ≡ some (p, rt)
      → get_elem? r.heap p ≡ some rt
  unfolding find_runtime
  find_runtime_sound domain r p rt h = elim (Option-cases (lookup domain r.runtimes)) [
    | inl missing ↦ absurd (ground arith)
    | inr (q, found) ↦ elim (Option-cases (get_elem? r.heap q)) [
      | inl out ↦ absurd (ground arith)
      | inr (x, there) ↦
          let same : q ≡ p = ground arith in ap (get_elem? r.heap) (sym same) ∙ ground arith
    ]
  ]

  IsBuilt-serve_site :
      (site : Site) (c : Clock) (req : Request) (r : Router)
      → IsHeapBuilt r
      → IsHeapBuilt (serve_site split_remote upstream site c req r).1
  unfolding serve_site
  IsBuilt-serve_site site c req r h = elim (Bool-cases (site.http_to_https && not req.tls)) [
    | inl sent ↦ rw sent h
    | inr secure ↦
        elim (Bool-cases
          (site.block_common_exploits && (is_exploit_path req.path || is_scanner req.user_agent))) [
            | inl blocked ↦ rw (secure, blocked) h
            | inr harmless ↦
                elim (Option-cases (find_runtime split_remote upstream site.domain r)) [
                  | inl missing ↦ rw (secure, harmless, missing) h
                  | inr ((p, rt), found) ↦
                      let built =
                        All-get_elem? (IsBuilt parse_url) r.heap p rt h
                          (find_runtime_sound site.domain r p rt found) in
                      rw (secure, harmless, found)
                        (IsBuilt-limited site.domain p rt c req r h built)
                ]
          ]
  ]

  IsBuilt-serve_http :
      (c : Clock) (req : Request) (r : Router)
      → IsHeapBuilt r
      → IsHeapBuilt (serve_http split_remote upstream c req r).1
  unfolding serve_http
  IsBuilt-serve_http c req r h = elim (Bool-cases r.stopping) [
    | inl stopping ↦ rw stopping h
    | inr running ↦ elim (Option-cases (lookup_host r.store req.host)) [
      | inl missing ↦ rw (running, missing) h
      | inr (site, found) ↦ rw (running, found) (IsBuilt-serve_site site c req r h)
    ]
  ]

  IsBuilt-stop : (r : Router) → IsHeapBuilt r → IsHeapBuilt (stop r)
  unfolding stop
  IsBuilt-stop r h = h

  -- In every state that the router comes to, the pool of each runtime holds the urls of its own
  -- site's upstreams, in order.
  pub Reach-IsHeapBuilt : {trust : Bool} {r : Router} → Reach trust r → IsHeapBuilt r
  Reach-IsHeapBuilt fresh = tt
  Reach-IsHeapBuilt (after reached (request c req)) =
      IsBuilt-serve_http c req _ (Reach-IsHeapBuilt reached)
  Reach-IsHeapBuilt (after reached (replaced sites)) = Reach-IsHeapBuilt reached
  Reach-IsHeapBuilt (after reached (reloaded sites)) =
      unfold reload in IsBuilt-reload_sites sites [] [] tt
  Reach-IsHeapBuilt (after reached (pruned keep)) = Reach-IsHeapBuilt reached
  Reach-IsHeapBuilt (after reached stopped) = IsBuilt-stop _ (Reach-IsHeapBuilt reached)
