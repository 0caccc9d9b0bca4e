-- ===== src/Proxy/Router/Targets.antt =====
-- Over any sequence of requests, reloads and other steps a request is proxied to an upstream of the
-- runtime's own site.
use proxy_go.Prelude.{
  Option-cases, get_elem?, All-get_elem?, Text, nat_eq, text_eq, ℕ, ◌≡◌, ◌⊎◌, inl, inr, Bool,
  Option, none, some, List, [], arith,
}
use proxy_go.Config.Site.{Site, Url}
use proxy_go.Config.Store.{lookup_host}
use proxy_go.Proxy.Pool.{parse_upstream, next_url}
use proxy_go.Proxy.Pool.Parsing.{parse_all_sound, next_url_sound, next_url-none}
use proxy_go.Proxy.Writer.{Call, Response}
use proxy_go.Proxy.Request.{Request}
use proxy_go.Proxy.Router.{
  SiteRuntime, Router, Clock, proxied, direct, forward, limited, find_runtime, serve_site,
  serve_http,
}
use proxy_go.Proxy.Router.Built.{IsBuilt, Reach, find_runtime_sound, Reach-IsHeapBuilt}

module _ (parse_url : Text → Option Url) (split_remote : Text → Option Text)
    (upstream : Request → List Call) where
  -- what a proxied request has been sent to: an upstream of the site, by the director, or nowhere
  -- if the site has none
  pub record IsTarget (r : Router) (req : Request) (rt : SiteRuntime) (sent : Request)
      : Type 0 where
    pub target : Option Url
    pub directed : sent ≡ direct split_remote r.trust_headers target req
    pub own :
        (target ≡ none × rt.pool.upstreams ≡ [])
        ⊎ ((i : ℕ) × (raw : Text) × (u : Url) × (get_elem? rt.site.upstreams i ≡ some raw)
            × (parse_upstream parse_url raw ≡ some u)
            × (target ≡ some u))

  IsTarget-limited :
      (domain : Text) (p : ℕ) (rt : SiteRuntime) (c : Clock) (req : Request) (r : Router)
      (sent : Request) (resp : Response)
      → IsBuilt parse_url rt
      → (limited split_remote upstream domain p rt c req r).0 ≡ proxied sent resp
      → IsTarget r req rt sent
  unfolding limited forward
  IsTarget-limited domain p rt c req r sent resp b h = record {
    target = (next_url rt.pool).0;
    directed = ground arith;
    own = elim (Option-cases (next_url rt.pool).0) [
      | inl dry ↦ inl (dry, next_url-none rt.pool dry)
      | inr (u, picked) ↦
          let at = next_url_sound rt.pool u picked in
          let (raw, found, good) =
            parse_all_sound parse_url rt.site.upstreams rt.pool.upstreams _ u b.parsed at in
          inr (_, raw, u, found, good, picked)
    ];
  }

  -- In every state that the router comes to, a proxied request is sent by the director to one of the
  -- upstreams of the site whose runtime stands under the domain of the routed site; only a site with
  -- no upstreams has it sent nowhere.
  pub IsTarget-serve_http :
      {trust : Bool} (r : Router) (c : Clock) (req : Request) (sent : Request) (resp : Response)
      → Reach parse_url split_remote upstream trust r
      → (serve_http split_remote upstream c req r).0 ≡ proxied sent resp
      → (site : Site) × (rt : SiteRuntime) × (p : ℕ) × (lookup_host r.store req.host ≡ some site)
        × (find_runtime split_remote upstream site.domain r ≡ some (p, rt))
        × IsTarget r req rt sent
  unfolding serve_http serve_site
  IsTarget-serve_http r c req sent resp reached h =
      elim (Option-cases (lookup_host r.store req.host)) [
        | inl missing ↦ absurd (ground arith)
        | inr (site, routed) ↦
            elim (Option-cases (find_runtime split_remote upstream site.domain r)) [
              | inl missing ↦ absurd (ground arith)
              | inr ((p, rt), found) ↦
                  let built =
                    All-get_elem? (IsBuilt parse_url) r.heap p rt
                      (Reach-IsHeapBuilt parse_url split_remote upstream reached)
                      (find_runtime_sound parse_url split_remote upstream site.domain r p rt
                        found) in
                  let passed : (limited split_remote upstream site.domain p rt c req r).0
                      ≡ proxied sent resp =
                    ground arith in
                  (
                    site,
                    rt,
                    p,
                    routed,
                    found,
                    IsTarget-limited site.domain p rt c req r sent resp built passed,
                  )
            ]
      ]
