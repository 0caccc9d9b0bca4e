-- ===== src/Proxy/Router/Flight/Sound.antt =====
-- What holds of a request at each of its stages, while others go on and the sites are reloaded.
use proxy_go.Prelude.{
  Option-cases, get_elem?, set, All, contains, All-get_elem?, All-set, Text, nat_eq, text_eq, ℕ,
  ◌≡◌, refl, sym, ap, subst, ◌∙◌, ◌⊎◌, inl, inr, Bool, true, Option, none, some, List, [],
}
use proxy_go.Config.Site.{Site, Url, all_domains}
use proxy_go.Config.Store.{host_key, lookup_host}
use proxy_go.Config.Store.Routing.{serves}
use proxy_go.Proxy.Pool.{parse_upstream, parse_all, next_url}
use proxy_go.Proxy.Pool.Parsing.{parse_all_sound, parse_all-empty, next_url_sound, next_url-none}
use proxy_go.Proxy.Request.{Request}
use proxy_go.Proxy.Router.{SiteRuntime, Outcome, proxied, direct}
use proxy_go.Proxy.Router.Built.{IsBuilt}
use proxy_go.Proxy.Router.Flight.{
  Shared, Stage, arrived, admitted, routed, bound, granted, sent_out, answered, unlisted, counting,
  done,
}
use proxy_go.Proxy.Router.Flight.Heap.{
  Extends, Extends-set, IsNamed, IsNamed-Extends, IsNaming, IsNaming-Extends,
}

-- `S` is what holds of the sites that the store was given, and `R` of those that the runtimes were
-- made of.
module _ (parse_url : Text → Option Url) (split_remote : Text → Option Text) (trust : Bool)
    (S R : Site → Type 0) where
  -- the request was sent by the director to an upstream of the site, or nowhere if it has none
  pub record IsSentTo (req : Request) (home : Site) (sent : Request) : Type 0 where
    pub target : Option Url
    pub directed : sent ≡ direct split_remote trust target req
    pub own :
        (target ≡ none × home.upstreams ≡ [])
        ⊎ ((i : ℕ) × (raw : Text) × (u : Url) × (get_elem? home.upstreams i ≡ some raw)
            × (parse_upstream parse_url raw ≡ some u)
            × (target ≡ some u))

  -- a site that the store was given, and that serves the host of the request, has the name as its
  -- domain
  abbrev pub IsFor : Request → Text → Type 0
  IsFor req d =
      (site : Site) × S site × (serves site (host_key req.host) ≡ true) × (site.domain ≡ d)

  -- The request was sent to an upstream of a site that a runtime was made of, and that has the domain
  -- of a site that serves the request's host.
  abbrev pub IsProxied : Request → Request → Type 0
  IsProxied req sent =
      (d : Text) × (home : Site) × R home
      × IsFor req d
      × (contains (all_domains home) d ≡ true)
      × IsSentTo req home sent

  abbrev pub IsSoundOutcome : Request → Outcome → Type 0
  IsSoundOutcome req (proxied sent resp) = IsProxied req sent
  IsSoundOutcome req _ = Unit

  abbrev pub IsSoundStage : List SiteRuntime → Request → Stage → Type 0
  IsSoundStage heap req (routed site) = S site × (serves site (host_key req.host) ≡ true)
  IsSoundStage heap req (bound d p) = IsFor req d × IsNamed heap d p
  IsSoundStage heap req (granted d p) = IsFor req d × IsNamed heap d p
  IsSoundStage heap req (sent_out d p sent) = IsProxied req sent
  IsSoundStage heap req (answered d out sm) = IsSoundOutcome req out
  IsSoundStage heap req (unlisted d out sm) = IsSoundOutcome req out
  IsSoundStage heap req (counting q out sm) = IsSoundOutcome req out
  IsSoundStage heap req (done out) = IsSoundOutcome req out
  IsSoundStage heap req _ = Unit

  pub IsSoundStage-Extends :
      (a b : List SiteRuntime) (req : Request) (st : Stage)
      → Extends a b
      → IsSoundStage a req st
      → IsSoundStage b req st
  IsSoundStage-Extends a b req (bound d p) e (whose, named) =
      (whose, IsNamed-Extends a b d p e named)
  IsSoundStage-Extends a b req (granted d p) e (whose, named) =
      (whose, IsNamed-Extends a b d p e named)
  IsSoundStage-Extends a b req arrived e h = tt
  IsSoundStage-Extends a b req admitted e h = tt
  IsSoundStage-Extends a b req (routed site) e h = h
  IsSoundStage-Extends a b req (sent_out d p sent) e h = h
  IsSoundStage-Extends a b req (answered d out sm) e h = h
  IsSoundStage-Extends a b req (unlisted d out sm) e h = h
  IsSoundStage-Extends a b req (counting q out sm) e h = h
  IsSoundStage-Extends a b req (done out) e h = h

  -- what is shared: runtimes with the pools of their sites, a map that names them, a store that
  -- routes by the names of the sites
  pub record IsSoundShared (s : Shared) : Type 0 where
    pub built : All (IsBuilt parse_url) s.heap
    pub given : All (λ rt. R rt.site) s.heap
    pub naming : IsNaming s.heap s.runtimes
    pub routes :
        (host : Text) (site : Site)
        → lookup_host s.store host ≡ some site
        → S site × (serves site (host_key host) ≡ true)
    pub trusting : s.trust_headers ≡ trust

  -- a runtime that is written back with the same site and pool urls
  pub IsSoundShared-set :
      (s : Shared) (p : ℕ) (old new : SiteRuntime)
      → get_elem? s.heap p ≡ some old
      → new.site ≡ old.site
      → new.pool.upstreams ≡ old.pool.upstreams
      → IsSoundShared s
      → IsSoundShared (record s { heap = set s.heap p new }) × Extends s.heap (set s.heap p new)
  IsSoundShared-set s p old new here same urls o =
      let further = Extends-set s.heap p old new here same in
      let was = All-get_elem? (IsBuilt parse_url) s.heap p old o.built here in
      (
        record {
          built = All-set (IsBuilt parse_url) s.heap p new o.built (record {
            parsed =
                ap (λ q. parse_all parse_url q.upstreams) same ∙ was.parsed ∙ ap some (sym urls);
          });
          given =
              All-set (λ rt. R rt.site) s.heap p new o.given
                (subst R (sym same) (All-get_elem? (λ rt. R rt.site) s.heap p old o.given here));
          naming = IsNaming-Extends s.heap (set s.heap p new) s.runtimes further o.naming;
          routes = o.routes;
          trusting = o.trusting;
        },
        further,
      )

  -- the director's choice
  pub IsProxied-pick :
      (req : Request) (d : Text) (rt : SiteRuntime)
      → R rt.site
      → IsFor req d
      → contains (all_domains rt.site) d ≡ true
      → IsBuilt parse_url rt
      → IsProxied req (direct split_remote trust (next_url rt.pool).0 req)
  IsProxied-pick req d rt given whose named b = (
    d,
    rt.site,
    given,
    whose,
    named,
    record {
      target = (next_url rt.pool).0;
      directed = refl;
      own = elim (Option-cases (next_url rt.pool).0) [
        | inl dry ↦
            let none_left = next_url-none rt.pool dry in
            inl (dry, parse_all-empty parse_url rt.site.upstreams (b.parsed ∙ ap some none_left))
        | inr (u, picked) ↦
            let at = next_url_sound rt.pool u picked in
            let (raw, found, good) =
              parse_all_sound parse_url rt.site.upstreams rt.pool.upstreams _ u b.parsed at in
            inr (_, raw, u, found, good, picked)
      ];
    },
  )
