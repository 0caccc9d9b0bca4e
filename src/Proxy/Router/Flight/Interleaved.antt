-- ===== src/Proxy/Router/Flight/Interleaved.antt =====
-- Requests, reloads and prunes in any order: where a request is sent.
use proxy_go.Prelude.{
  if◌then◌else◌, Bool-cases, Option-cases, get_elem?, contains, get_elem?-set_same, All-get_elem?,
  Text, nat_eq, text_eq, ℕ, ◌≡◌, refl, sym, subst, inl, inr, Bool, true, false, not, ◌&&◌, ◌||◌,
  Option, some, List,
}
use proxy_go.Dict.{Dict, lookup}
use proxy_go.Config.Site.{Site, Url, all_domains}
use proxy_go.Config.Store.{host_key, lookup_host}
use proxy_go.Config.Store.Routing.{serves}
use proxy_go.Metrics.{Sample}
use proxy_go.Proxy.Limiter.{allow_opt}
use proxy_go.Proxy.Pool.{next_url}
use proxy_go.Proxy.Pool.Parsing.{upstreams-next_url}
use proxy_go.Proxy.Paths.{is_exploit_path, is_scanner}
use proxy_go.Proxy.Request.{Request, client_ip}
use proxy_go.Proxy.Router.{SiteRuntime, Outcome, unavailable, direct}
use proxy_go.Proxy.Router.Built.{IsBuilt}
use proxy_go.Proxy.Router.Flight.{
  Shared, Stage, arrived, admitted, routed, bound, granted, sent_out, answered, unlisted, counting,
  done, Tick, track, store_sample, screen, take_token, pick_upstream, advance,
}
use proxy_go.Proxy.Router.Flight.Heap.{Extends, Extends-refl}
use proxy_go.Proxy.Router.Flight.Sound.{
  IsSoundShared, IsFor, IsProxied, IsSoundOutcome, IsSoundStage, IsSoundShared-set, IsProxied-pick,
}
use proxy_go.Proxy.Router.Flight.Tracking.{track-cases}
use proxy_go.Proxy.Router.Flight.Served.{advance-granted, advance-bound}
use proxy_go.Metrics.{Site as Stats}

module _ (parse_url : Text → Option Url) (split_remote : Text → Option Text) (trust : Bool)
    (S R : Site → Type 0) where
  -- what an access leaves
  pub record IsSoundStep (req : Request) (s : Shared) (left : Stage × Shared) : Type 0 where
    pub shared : IsSoundShared parse_url split_remote trust S R left.1
    pub stage : IsSoundStage parse_url split_remote trust S R left.1.heap req left.0
    pub further : Extends s.heap left.1.heap

  -- an access that leaves the runtimes alone
  IsSoundStep-same :
      (req : Request) (s : Shared) (st : Stage)
      → IsSoundShared parse_url split_remote trust S R s
      → IsSoundStage parse_url split_remote trust S R s.heap req st
      → IsSoundStep req s (st, s)
  IsSoundStep-same req s st o h = record { shared = o; stage = h; further = Extends-refl s.heap }

  IsSoundStep-screen :
      (req : Request) (s : Shared) (site : Site)
      → IsSoundShared parse_url split_remote trust S R s
      → S site × (serves site (host_key req.host) ≡ true)
      → IsSoundStep req s (screen req site, s)
  unfolding screen
  IsSoundStep-screen req s site o serving = elim (Bool-cases (site.http_to_https && not req.tls)) [
    | inl sent ↦ rw sent (IsSoundStep-same req s _ o tt)
    | inr secure ↦
        elim (Bool-cases
          (site.block_common_exploits && (is_exploit_path req.path || is_scanner req.user_agent))) [
            | inl blocked ↦ rw (secure, blocked) (IsSoundStep-same req s _ o tt)
            | inr harmless ↦ rw (secure, harmless) (IsSoundStep-same req s (routed site) o serving)
          ]
  ]

  IsSoundStep-take_token :
      (t : Tick) (req : Request) (d : Text) (p : ℕ) (rt : SiteRuntime) (s : Shared)
      → get_elem? s.heap p ≡ some rt
      → IsSoundShared parse_url split_remote trust S R s
      → IsFor parse_url split_remote trust S R req d
      → contains (all_domains rt.site) d ≡ true
      → IsSoundStep req s (take_token split_remote t req d p rt s)
  unfolding take_token
  IsSoundStep-take_token t req d p rt s there o whose named =
      let allowed = allow_opt (client_ip split_remote req s.trust_headers) t.clock.now rt.limiter in
      let rt' = record rt { limiter = allowed.1 } in
      let (o', further) =
        IsSoundShared-set parse_url split_remote trust S R s p rt rt' there refl refl o in
      elim (Bool-cases allowed.0) [
        | inl ok ↦ rw ok record {
          shared = o';
          stage = (whose, (rt', get_elem?-set_same s.heap p rt' rt there, named));
          further = further;
        }
        | inr refused ↦ rw refused record { shared = o'; stage = tt; further = further }
      ]

  IsSoundStep-pick_upstream :
      (req : Request) (d : Text) (p : ℕ) (rt : SiteRuntime) (s : Shared)
      → get_elem? s.heap p ≡ some rt
      → IsSoundShared parse_url split_remote trust S R s
      → IsFor parse_url split_remote trust S R req d
      → contains (all_domains rt.site) d ≡ true
      → IsSoundStep req s (pick_upstream split_remote req d p rt s)
  unfolding pick_upstream
  IsSoundStep-pick_upstream req d p rt s there o whose named =
      let rt' = record rt { pool = (next_url rt.pool).1 } in
      let (o', further) =
        IsSoundShared-set parse_url split_remote trust S R s p rt rt' there refl
          (upstreams-next_url rt.pool) o in
      let built = All-get_elem? (IsBuilt parse_url) s.heap p rt o.built there in
      let given = All-get_elem? (λ q. R q.site) s.heap p rt o.given there in
      record {
        shared = o';
        stage =
            subst
              (λ b.
                IsProxied parse_url split_remote trust S R req
                  (direct split_remote b (next_url rt.pool).0 req))
              (sym o.trusting)
              (IsProxied-pick parse_url split_remote trust S R req d rt given whose named built);
        further = further;
      }

  -- the counters do not matter here
  IsSoundStep-counters :
      (req : Request) (s : Shared) (sites : Dict Text ℕ) (stats : List Stats) (st : Stage)
      → IsSoundShared parse_url split_remote trust S R s
      → IsSoundStage parse_url split_remote trust S R s.heap req st
      → IsSoundStep req s (st, record s { sites = sites; stats = stats })
  IsSoundStep-counters req s sites stats st o h = record {
    shared = record {
      built = o.built;
      given = o.given;
      naming = o.naming;
      routes = o.routes;
      trusting = o.trusting;
    };
    stage = h;
    further = Extends-refl s.heap;
  }

  IsSoundStep-arrived :
      (req : Request) (s : Shared) (b : Bool)
      → IsSoundShared parse_url split_remote trust S R s
      → IsSoundStep req s (if b then done unavailable else admitted, s)
  IsSoundStep-arrived req s true o = IsSoundStep-same req s (done unavailable) o tt
  IsSoundStep-arrived req s false o = IsSoundStep-same req s admitted o tt

  IsSoundStep-admitted :
      (t : Tick) (req : Request) (s : Shared)
      → IsSoundShared parse_url split_remote trust S R s
      → IsSoundStep req s (advance split_remote t req admitted s)
  unfolding advance
  IsSoundStep-admitted t req s o = elim (Option-cases (lookup_host s.store req.host)) [
    | inl missing ↦ rw (missing, advance) (IsSoundStep-same req s _ o tt)
    | inr (site, found) ↦
        rw (found, advance) (IsSoundStep-screen req s site o (o.routes req.host site found))
  ]

  IsSoundStep-routed :
      (t : Tick) (req : Request) (site : Site) (s : Shared)
      → IsSoundShared parse_url split_remote trust S R s
      → S site × (serves site (host_key req.host) ≡ true)
      → IsSoundStep req s (advance split_remote t req (routed site) s)
  unfolding advance
  IsSoundStep-routed t req site s o h = elim (Option-cases (lookup site.domain s.runtimes)) [
    | inl missing ↦ rw (missing, advance) (IsSoundStep-same req s _ o tt)
    | inr (p, found) ↦
        rw (found, advance)
          (IsSoundStep-same req s (bound site.domain p) o
            ((site, h.0, h.1, refl), o.naming site.domain p found))
  ]

  IsSoundStep-unlisted :
      (req : Request) (d : Text) (out : Outcome) (sm : Sample) (s : Shared)
      → IsSoundShared parse_url split_remote trust S R s
      → IsSoundOutcome parse_url split_remote trust S R req out
      → IsSoundStep req s (counting (track d s).0 out sm, (track d s).1)
  IsSoundStep-unlisted req d out sm s o h = elim (track-cases d s) [
    | inl (q, held, e) ↦ rw e (IsSoundStep-same req s _ o h)
    | inr (free, e) ↦ rw e (IsSoundStep-counters req s _ _ _ o h)
  ]

  IsSoundStep-answered :
      (t : Tick) (req : Request) (d : Text) (out : Outcome) (sm : Sample) (s : Shared)
      → IsSoundShared parse_url split_remote trust S R s
      → IsSoundOutcome parse_url split_remote trust S R req out
      → IsSoundStep req s (advance split_remote t req (answered d out sm) s)
  unfolding advance
  IsSoundStep-answered t req d out sm s o h = elim (Option-cases (lookup d s.sites)) [
    | inl missing ↦ rw (missing, advance) (IsSoundStep-same req s (unlisted d out sm) o h)
    | inr (q, found) ↦ rw (found, advance) (IsSoundStep-same req s (counting q out sm) o h)
  ]

  pub advance_sound :
      (t : Tick) (req : Request) (st : Stage) (s : Shared)
      → IsSoundShared parse_url split_remote trust S R s
      → IsSoundStage parse_url split_remote trust S R s.heap req st
      → IsSoundStep req s (advance split_remote t req st s)
  advance_sound t req arrived s o h = unfold advance in IsSoundStep-arrived req s s.stopping o
  advance_sound t req admitted s o h = IsSoundStep-admitted t req s o
  advance_sound t req (routed site) s o h = IsSoundStep-routed t req site s o h
  advance_sound t req (bound d p) s o (whose, (rt, there, named)) =
      subst (IsSoundStep req s) (sym (advance-bound split_remote t req d p rt s there))
        (IsSoundStep-take_token t req d p rt s there o whose named)
  advance_sound t req (granted d p) s o (whose, (rt, there, named)) =
      subst (IsSoundStep req s) (sym (advance-granted split_remote t req d p rt s there))
        (IsSoundStep-pick_upstream req d p rt s there o whose named)
  advance_sound t req (sent_out d p sent) s o h = unfold advance in IsSoundStep-same req s _ o h
  advance_sound t req (answered d out sm) s o h = IsSoundStep-answered t req d out sm s o h
  advance_sound t req (unlisted d out sm) s o h =
      unfold advance in IsSoundStep-unlisted req d out sm s o h
  advance_sound t req (counting q out sm) s o h =
      unfold advance in unfold store_sample in IsSoundStep-counters req s _ _ (done out) o h
  advance_sound t req (done out) s o h = unfold advance in IsSoundStep-same req s _ o h
