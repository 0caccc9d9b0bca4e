-- ===== src/Proxy/Router.antt =====
-- internal/proxy/router.go: `Router`, its reload and the request path. The runtimes are reached
-- through pointers, which the map shares among the names of a site: a pointer is a place in `heap`.
-- The mutexes and atomics make each method one step; the requests are served one after another.
pub mod Director
pub mod Outcomes
pub mod Counts
pub mod Runtimes
pub mod Built
pub mod Targets
pub mod Sample
pub mod Flight
mod Tests
use proxy_go.Text.{codes}
use proxy_go.Dict.{Dict, lookup, insert}
use proxy_go.Prelude.Int.{ℤ, pos}
use proxy_go.Prelude.{
  if◌then◌else◌, length, is_empty, get_elem?, set, ◌==◌, Text, nat_eq, text_eq, ℕ, Bool, true,
  false, not, ◌&&◌, ◌||◌, Option, none, some, List, [], ◌∷◌, ◌++◌,
}
use proxy_go.Config.Site.{Site, Url}
use proxy_go.Config.Store.{Store, lookup_host}
use proxy_go.Metrics.Registry.{Registry, record_at}
use proxy_go.Proxy.Pool.{Pool, new_pool, next_url}
use proxy_go.Proxy.Limiter.{Limiter, new_limiter, allow_opt}
use proxy_go.Proxy.Request.{
  Request, set_header, x_real_ip, x_forwarded_host, x_forwarded_proto, client_ip, scheme_of,
}
use proxy_go.Proxy.Writer.{Call, Response, observed}
use proxy_go.Proxy.Paths.{single_join, sanitize_host_for_log, is_exploit_path, is_scanner}

pub record SiteRuntime : Type 0 where
  pub site : Site
  pub pool : Pool
  pub limiter : Option Limiter

pub record Router : Type 0 where
  pub store : Store Site
  pub registry : Registry
  pub trust_headers : Bool
  pub heap : List SiteRuntime
  pub runtimes : Dict Text ℕ
  pub stopping : Bool

abbrev pub new_router : Store Site → Registry → Bool → Router
new_router store registry trust_headers = record {
  store = store;
  registry = registry;
  trust_headers = trust_headers;
  heap = [];
  runtimes = [];
  stopping = false;
}

-- a runtime that the reload builds, and the names under which it is stored
abbrev pub runtime_of : Site → Pool → SiteRuntime
runtime_of s pool = record {
  site = s;
  pool = pool;
  limiter = if s.rate_limit.enabled then new_limiter s.rate_limit.rps s.rate_limit.burst else none;
}

-- the loop over the aliases
pub insert_names : ℕ → List Text → Dict Text ℕ → Dict Text ℕ
insert_names p [] next = next
insert_names p (a ∷ names) next = insert_names p names (insert a p next)

-- The clock's readings for one request: in nanoseconds, in unix seconds, and the time it took.
pub record Clock : Type 0 where
  pub now : ℕ
  pub now_sec : ℕ
  pub latency : ℕ

pub data Outcome : Type 0 where
  unavailable forbidden too_many : Outcome
  not_found : Text → Outcome
  redirect : Text → Outcome
  proxied : Request → Response → Outcome

unfoldable pub stop : Router → Router
stop r = record r { stopping = true }

-- `r.recordMetric`
unfoldable pub record_metric : Text → ℕ → ℤ → Clock → Router → Router
record_metric domain status bytes c r = record r {
  registry =
      record_at domain (record { status = status; bytes = bytes; latency = c.latency }) c.now_sec
        r.registry;
}

module _ (parse_url : Text → Option Url) where
  -- the loop of `Reload`, which grows the new heap and the new map
  pub reload_sites : List Site → List SiteRuntime → Dict Text ℕ → List SiteRuntime × Dict Text ℕ
  unfolding insert_names
  reload_sites [] heap next = (heap, next)
  reload_sites (s ∷ sites) heap next =
      let skipped = reload_sites sites heap next in
      if not s.enabled then skipped else elim (new_pool parse_url s.upstreams) [
        | none ↦ skipped
        | some pool ↦
            reload_sites sites (heap ++ runtime_of s pool ∷ [])
              (insert_names (length heap) s.aliases (insert s.domain (length heap) next))
      ]

  unfoldable pub reload : List Site → Router → Router
  unfolding reload_sites
  reload sites r =
      let (heap, next) = reload_sites sites [] [] in record r { heap = heap; runtimes = next }

module _ (split_remote : Text → Option Text) where
  -- the director, for the upstream that the pool has picked
  unfoldable pub direct : Bool → Option Url → Request → Request
  direct trust none req = req
  direct trust (some target) req =
      let path =
        if not (is_empty target.path) && not (target.path == codes "/")
        then single_join target.path req.path
        else req.path in
      let sent = record req { url_scheme = target.scheme; url_host = target.host; path = path } in
      let hosted = set_header x_forwarded_host sent.host sent in
      let schemed = set_header x_forwarded_proto (scheme_of hosted) hosted in
      set_header x_real_ip (client_ip split_remote schemed trust) schemed

  -- `upstream` is the reverse proxy's transport with its handling of errors: the calls that it
  -- makes of the writer for the request that is sent.
  module _ (upstream : Request → List Call) where
    -- `rt.rp.ServeHTTP` and what follows, at the runtime with pointer `p`
    forward : Text → ℕ → SiteRuntime → Clock → Request → Router → Outcome × Router
    forward domain p rt c req r =
        let (target, pool) = next_url rt.pool in
        let sent = direct r.trust_headers target req in
        let resp = observed (upstream sent) in
        (
          proxied sent resp,
          record_metric domain resp.status resp.bytes c
              (record r { heap = set r.heap p (record rt { pool = pool }) }),
        )

    -- the rate limit, then the proxy
    pub limited : Text → ℕ → SiteRuntime → Clock → Request → Router → Outcome × Router
    limited domain p rt c req r =
        let (ok, limiter) =
          allow_opt (client_ip split_remote req r.trust_headers) c.now rt.limiter in
        let rt' = record rt { limiter = limiter } in
        let r' = record r { heap = set r.heap p rt' } in
        if ok
        then forward domain p rt' c req r'
        else (too_many, record_metric domain 429 (pos 0) c r')

    -- the runtime of a site, as a pointer with what it points to
    pub find_runtime : Text → Router → Option (ℕ × SiteRuntime)
    find_runtime domain r = elim (lookup domain r.runtimes) [
      | none ↦ none
      | some p ↦ elim (get_elem? r.heap p) [ none ↦ none | some rt ↦ some (p, rt) ]
    ]

    serve_site : Site → Clock → Request → Router → Outcome × Router
    serve_site site c req r =
        if site.http_to_https && not req.tls
        then (redirect (codes "https://" ++ req.host ++ req.request_uri), r)
        else if site.block_common_exploits
            && (is_exploit_path req.path || is_scanner req.user_agent)
        then (forbidden, r)
        else elim (find_runtime site.domain r) [
          | none ↦ (unavailable, r)
          | some (p, rt) ↦ limited site.domain p rt c req r
        ]

    pub serve_http : Clock → Request → Router → Outcome × Router
    serve_http c req r =
        if r.stopping then (unavailable, r) else elim (lookup_host r.store req.host) [
          | none ↦ (not_found (sanitize_host_for_log req.host), r)
          | some site ↦ serve_site site c req r
        ]
