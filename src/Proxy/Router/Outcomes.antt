-- ===== src/Proxy/Router/Outcomes.antt =====
-- What each outcome of a request says about the site and the state.
use proxy_go.Prelude.{
  Option-cases, Text, nat_eq, text_eq, ℕ, ◌≡◌, refl, inl, inr, Bool, true, false, not, ◌&&◌, ◌||◌,
  Option, some, List, arith,
}
use proxy_go.Config.Site.{Site}
use proxy_go.Config.Store.{lookup_host}
use proxy_go.Metrics.Registry.{record_at}
use proxy_go.Proxy.Paths.{is_exploit_path, is_scanner}
use proxy_go.Proxy.Request.{Request}
use proxy_go.Proxy.Writer.{Call, Response, observed}
use proxy_go.Proxy.Router.{
  SiteRuntime, Router, Clock, Outcome, unavailable, too_many, proxied, forward, limited,
  find_runtime, serve_site, serve_http,
}
use proxy_go.Proxy.Router.Counts.{answer_sample, registry-proxied}

-- an answer that is given before a limiter, a pool or a counter is touched
abbrev pub is_early : Outcome → Bool
is_early (proxied _ _) = false
is_early too_many = false
is_early _ = true

module _ (split_remote : Text → Option Text) (upstream : Request → List Call) (c : Clock)
    (req : Request) where
  limited-late :
      (domain : Text) (p : ℕ) (rt : SiteRuntime) (r : Router)
      → is_early (limited split_remote upstream domain p rt c req r).0 ≡ false
  unfolding limited forward
  limited-late domain p rt r = ground arith

  limited-answer :
      (domain : Text) (p : ℕ) (rt : SiteRuntime) (r : Router) (sent : Request) (resp : Response)
      → (limited split_remote upstream domain p rt c req r).0 ≡ proxied sent resp
      → resp ≡ observed (upstream sent)
  unfolding limited forward
  limited-answer domain p rt r sent resp h = ground arith

  serve_site-early :
      (site : Site) (r : Router)
      → is_early (serve_site split_remote upstream site c req r).0 ≡ true
      → (serve_site split_remote upstream site c req r).1 ≡ r
  unfolding serve_site
  serve_site-early site r h =
      elim (Option-cases (find_runtime split_remote upstream site.domain r)) [
        | inl missing ↦ ground arith
        | inr ((p, rt), found) ↦ ground (arith, limited-late site.domain p rt r)
      ]

  -- the tests that a site has let a proxied request pass
  pub record IsPassed (site : Site) (sent : Request) (resp : Response) : Type 0 where
    pub https : (site.http_to_https && not req.tls) ≡ false
    pub harmless :
        (site.block_common_exploits && (is_exploit_path req.path || is_scanner req.user_agent))
        ≡ false
    pub answered : resp ≡ observed (upstream sent)

  serve_site-IsPassed :
      (site : Site) (r : Router) (sent : Request) (resp : Response)
      → (serve_site split_remote upstream site c req r).0 ≡ proxied sent resp
      → IsPassed site sent resp
  unfolding serve_site
  serve_site-IsPassed site r sent resp h =
      elim (Option-cases (find_runtime split_remote upstream site.domain r)) [
        | inl missing ↦ absurd (ground arith)
        | inr ((p, rt), found) ↦ record {
          https = ground arith;
          harmless = ground arith;
          answered = ground (arith, limited-answer site.domain p rt r sent resp);
        }
      ]

  -- a router that is stopped answers nothing else, and stays stopped
  pub stopped-serve_http :
      (r : Router) → r.stopping ≡ true → serve_http split_remote upstream c req r ≡ (unavailable, r)
  unfolding serve_http
  stopped-serve_http r h = rw h refl

  module _ (r : Router) where
    -- An early answer changes nothing: no token is spent, no upstream's turn is used up and nothing
    -- is counted.
    pub serve_http-early :
        is_early (serve_http split_remote upstream c req r).0 ≡ true
        → (serve_http split_remote upstream c req r).1 ≡ r
    unfolding serve_http
    serve_http-early h = elim (Option-cases (lookup_host r.store req.host)) [
      | inl missing ↦ ground arith
      | inr (site, found) ↦ ground (arith, serve_site-early site r)
    ]

    -- A request is proxied only while the router runs, for the site that its host is routed to; not
    -- over a plain connection if the site wants TLS, and not if the site blocks exploits and the
    -- path or the agent is on the lists. Under the site's domain the metrics record the status and the
    -- bytes that are observed of the upstream's answer to what was sent, once.
    pub serve_http-IsPassed :
        (sent : Request) (resp : Response)
        → (serve_http split_remote upstream c req r).0 ≡ proxied sent resp
        → (site : Site) × (lookup_host r.store req.host ≡ some site)
          × (r.stopping ≡ false)
          × IsPassed site sent resp
          × ((serve_http split_remote upstream c req r).1.registry
              ≡ record_at site.domain (answer_sample c resp) c.now_sec r.registry)
    unfolding serve_http
    serve_http-IsPassed sent resp h = elim (Option-cases (lookup_host r.store req.host)) [
      | inl missing ↦ absurd (ground arith)
      | inr (site, found) ↦
          let running : r.stopping ≡ false = ground arith in
          let answer : (serve_site split_remote upstream site c req r).0 ≡ proxied sent resp =
            ground arith in
          (
            site,
            found,
            running,
            serve_site-IsPassed site r sent resp answer,
            registry-proxied split_remote upstream c req r site sent resp found h,
          )
    ]
