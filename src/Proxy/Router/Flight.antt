-- ===== src/Proxy/Router/Flight.antt =====
-- internal/proxy/router.go: `ServeHTTP` of many requests at once. A request is a goroutine that goes
-- from one access of what is shared to the next, and between two of them others may go on, the sites
-- be reloaded and the metrics pruned. What a mutex or an atomic guards is one access. A runtime that a
-- reload has replaced, and counters that a prune has dropped, live on for those who hold them: both
-- are places in lists that only grow.
pub mod Tracking
pub mod Served
pub mod Alone
pub mod Heap
pub mod Sound
pub mod Interleaved
pub mod Journeys
pub mod Progress
pub mod Drain
pub mod Recording
pub mod Counted
pub mod Listed
mod Tests
use proxy_go.Prelude.{
  if◌then◌else◌, length, get_elem?, get_or, set, Text, nat_eq, text_eq, ℕ, zero, suc, ◌≡◌, Bool,
  true, false, not, ◌&&◌, ◌||◌, Option, none, some, List, [], ◌∷◌, ◌++◌,
}
use proxy_go.Prelude.Int.{pos}
use proxy_go.Text.{codes}
use proxy_go.Dict.{Dict, lookup, insert, restrict}
use proxy_go.Config.Site.{Site, Url}
use proxy_go.Config.Store.{Store, new_store, lookup_host, replace}
use proxy_go.Metrics.{Sample, new_site, record_sample}
use proxy_go.Proxy.Limiter.{allow_opt}
use proxy_go.Proxy.Pool.{next_url}
use proxy_go.Proxy.Paths.{sanitize_host_for_log, is_exploit_path, is_scanner}
use proxy_go.Proxy.Request.{Request, client_ip}
use proxy_go.Proxy.Writer.{Call, Response, observed}
use proxy_go.Proxy.Router.{
  SiteRuntime, Clock, Outcome, unavailable, forbidden, too_many, not_found, redirect, proxied,
  reload_sites, direct,
}
use proxy_go.Metrics.{Site as Stats}

-- The router with its store, and the registry of internal/metrics/metrics.go: `sites` maps the
-- domains to places of `stats`.
pub record Shared : Type 0 where
  pub store : Store Site
  pub trust_headers : Bool
  pub heap : List SiteRuntime
  pub runtimes : Dict Text ℕ
  pub stopping : Bool
  pub sites : Dict Text ℕ
  pub stats : List Stats

-- Where a request stands, with the locals that it still needs: at the start; past the test of
-- `stopping`; with a site, past the redirect and the filter; with the runtime; past the limiter; sent to
-- an upstream; with an answer that is to be recorded; without counters for it at the first look; with
-- the counters to record it in; at the end.
pub data Stage : Type 0 where
  arrived admitted : Stage
  routed : Site → Stage
  bound granted : Text → ℕ → Stage
  sent_out : Text → ℕ → Request → Stage
  answered unlisted : Text → Outcome → Sample → Stage
  counting : ℕ → Outcome → Sample → Stage
  done : Outcome → Stage

abbrev pub is_done : Stage → Bool
is_done (done out) = true
is_done _ = false

-- What comes from outside at an access: the clock, and what an upstream answers.
pub record Tick : Type 0 where
  pub clock : Clock
  pub upstream : Request → List Call

-- what is recorded of an answer, and of a refusal
abbrev pub sample_of_reply : Tick → Response → Sample
sample_of_reply t resp = record {
  status = resp.status;
  bytes = resp.bytes;
  latency = t.clock.latency;
}

abbrev pub refusal : Tick → Sample
refusal t = record { status = 429; bytes = pos 0; latency = t.clock.latency }

-- `SiteFor` under the write lock: it looks again, and only then makes counters
unfoldable pub track : Text → Shared → ℕ × Shared
track domain s = elim (lookup domain s.sites) [
  | some q ↦ (q, s)
  | none ↦
      let q = length s.stats in
      (q, record s { sites = insert domain q s.sites; stats = s.stats ++ new_site ∷ [] })
]

-- `Record` of the counters at a place
unfoldable pub store_sample : ℕ → Sample → ℕ → Shared → Shared
store_sample q sm now s = record s {
  stats = set s.stats q (record_sample sm now (get_or s.stats q new_site));
}

-- the tests between the lookup of the site and that of its runtime, which share nothing
unfoldable pub screen : Request → Site → Stage
screen req site =
    if site.http_to_https && not req.tls
    then done (redirect (codes "https://" ++ req.host ++ req.request_uri))
    else if site.block_common_exploits && (is_exploit_path req.path || is_scanner req.user_agent)
    then done forbidden
    else routed site

module _ (split_remote : Text → Option Text) where
  -- the limiter of the runtime, and the sample of a refusal
  unfoldable pub take_token : Tick → Request → Text → ℕ → SiteRuntime → Shared → Stage × Shared
  take_token t req domain p rt s =
      let (ok, limiter) =
        allow_opt (client_ip split_remote req s.trust_headers) t.clock.now rt.limiter in
      let s' = record s { heap = set s.heap p (record rt { limiter = limiter }) } in
      if ok then (granted domain p, s') else (answered domain too_many (refusal t), s')

  -- the director, with the turn of an upstream
  unfoldable pub pick_upstream : Request → Text → ℕ → SiteRuntime → Shared → Stage × Shared
  pick_upstream req domain p rt s =
      let (target, pool) = next_url rt.pool in
      (
        sent_out domain p (direct split_remote s.trust_headers target req),
        record s { heap = set s.heap p (record rt { pool = pool }) },
      )

  -- the next access of a request
  unfoldable pub advance : Tick → Request → Stage → Shared → Stage × Shared
  unfolding screen take_token pick_upstream track store_sample
  advance t req arrived s = (if s.stopping then done unavailable else admitted, s)
  advance t req admitted s = elim (lookup_host s.store req.host) [
    | none ↦ (done (not_found (sanitize_host_for_log req.host)), s)
    | some site ↦ (screen req site, s)
  ]
  advance t req (routed site) s = elim (lookup site.domain s.runtimes) [
    | none ↦ (done unavailable, s)
    | some p ↦ (bound site.domain p, s)
  ]
  advance t req (bound domain p) s = elim (get_elem? s.heap p) [
    | none ↦ (done unavailable, s)
    | some rt ↦ take_token t req domain p rt s
  ]
  advance t req (granted domain p) s = elim (get_elem? s.heap p) [
    | none ↦ (done unavailable, s)
    | some rt ↦ pick_upstream req domain p rt s
  ]
  advance t req (sent_out domain p sent) s =
      let resp = observed (t.upstream sent) in
      (answered domain (proxied sent resp) (sample_of_reply t resp), s)
  advance t req (answered domain out sm) s = elim (lookup domain s.sites) [
    | some q ↦ (counting q out sm, s)
    | none ↦ (unlisted domain out sm, s)
  ]
  advance t req (unlisted domain out sm) s = let (q, s') = track domain s in (counting q out sm, s')
  advance t req (counting q out sm) s = (done out, store_sample q sm t.clock.now_sec s)
  advance t req (done out) s = (done out, s)

  -- so many accesses one after another, with nothing between
  unfoldable pub fly : ℕ → Tick → Request → Stage → Shared → Stage × Shared
  unfolding advance
  fly zero t req st s = (st, s)
  fly (suc n) t req st s = let (st', s') = advance t req st s in fly n t req st' s'

-- `Reload`: the new runtimes come behind the old ones, and the map is a new one.
unfoldable pub reload_shared : (Text → Option Url) → List Site → Shared → Shared
unfolding reload_sites
reload_shared parse_url sites s =
    let (heap, next) = reload_sites parse_url sites s.heap [] in
    record s { heap = heap; runtimes = next }

-- Requests with where they stand. `go_on` is an access of one of them.
pub record System : Type 0 where
  pub shared : Shared
  pub flights : List (Request × Stage)

module _ (parse_url : Text → Option Url) (split_remote : Text → Option Text) where
  pub data Move : System → System → Type 0 where
    arrive :
        {s : System} (req : Request)
        → Move s (record s { flights = s.flights ++ (req, arrived) ∷ [] })
    go_on :
        {s : System} (t : Tick) (i : ℕ) (req : Request) (st : Stage)
        → get_elem? s.flights i ≡ some (req, st)
        → is_done st ≡ false
        → Move s (record {
          shared = (advance split_remote t req st s.shared).1;
          flights = set s.flights i (req, (advance split_remote t req st s.shared).0);
        })
    replaced :
        {s : System} (sites : List Site)
        → Move s (record s {
          shared = record s.shared { store = replace (λ q. q) s.shared.store sites };
        })
    reloaded :
        {s : System} (sites : List Site)
        → Move s (record s { shared = reload_shared parse_url sites s.shared })
    pruned :
        {s : System} (keep : Text → Bool)
        → Move s (record s { shared = record s.shared { sites = restrict keep s.shared.sites } })
    stopped : {s : System} → Move s (record s { shared = record s.shared { stopping = true } })

abbrev pub new_system : Bool → System
new_system trust = record {
  shared = record {
    store = new_store;
    trust_headers = trust;
    heap = [];
    runtimes = [];
    stopping = false;
    sites = [];
    stats = [];
  };
  flights = [];
}

-- the systems that any number of moves leads to
pub data Runs (parse_url : Text → Option Url) (split_remote : Text → Option Text) (s : System)
    : System → Type 0 where
  at_rest : Runs parse_url split_remote s s
  onward :
      {s' s'' : System}
      → Runs parse_url split_remote s s'
      → Move parse_url split_remote s' s''
      → Runs parse_url split_remote s s''
