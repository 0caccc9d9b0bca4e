-- ===== src/Proxy/Router/Counts.antt =====
-- What a request leaves in the registry, and in the runtimes of the other sites.
use proxy_go.Prelude.{
  Option-cases, get_elem?, set, get_elem?-set_other, Text, nat_eq, text_eq, ℕ, ◌≡◌, sym, ap, ◌∙◌,
  ◌≢◌, inl, inr, Option, none, some, List, arith,
}
use proxy_go.Prelude.Int.{pos}
use proxy_go.Dict.{lookup}
use proxy_go.Config.Site.{Site}
use proxy_go.Config.Store.{lookup_host}
use proxy_go.Metrics.{Sample}
use proxy_go.Metrics.Registry.{Registry, record_at}
use proxy_go.Proxy.Request.{Request, client_ip}
use proxy_go.Proxy.Limiter.{allow_opt}
use proxy_go.Proxy.Pool.{next_url}
use proxy_go.Proxy.Writer.{Call, Response}
use proxy_go.Proxy.Router.{
  SiteRuntime, Router, Clock, Outcome, too_many, proxied, record_metric, forward, limited,
  find_runtime, serve_site, serve_http,
}

-- the sample of an answer
abbrev pub answer_sample : Clock → Response → Sample
answer_sample c resp = record { status = resp.status; bytes = resp.bytes; latency = c.latency }

-- the sample that an outcome should add, if any
abbrev pub sample_of : Clock → Outcome → Option Sample
sample_of c (proxied sent resp) = some (answer_sample c resp)
sample_of c too_many = some (record { status = 429; bytes = pos 0; latency = c.latency })
sample_of c _ = none

abbrev pub counted : Text → ℕ → Option Sample → Registry → Registry
counted domain now none g = g
counted domain now (some sm) g = record_at domain sm now g

module _ (split_remote : Text → Option Text) (upstream : Request → List Call) (c : Clock)
    (req : Request) where
  registry-limited :
      (domain : Text) (p : ℕ) (rt : SiteRuntime) (r : Router)
      → (let (out, r') = limited split_remote upstream domain p rt c req r in
          r'.registry ≡ counted domain c.now_sec (sample_of c out) r.registry)
  unfolding limited forward record_metric
  registry-limited domain p rt r = ground arith

  registry-serve_site :
      (site : Site) (r : Router)
      → (let (out, r') = serve_site split_remote upstream site c req r in
          r'.registry ≡ counted site.domain c.now_sec (sample_of c out) r.registry)
  unfolding serve_site
  registry-serve_site site r =
      elim (Option-cases (find_runtime split_remote upstream site.domain r)) [
        | inl missing ↦ ground arith
        | inr ((p, rt), found) ↦ ground (arith, registry-limited site.domain p rt r)
      ]

  -- A request whose host is routed to a site is counted once, under the site's domain, if it is
  -- proxied, with the status and the bytes that are recorded, or refused by the limiter, as a 429
  -- with no bytes; otherwise it is not counted.
  pub registry-serve_http :
      (r : Router) (site : Site)
      → lookup_host r.store req.host ≡ some site
      → (let (out, r') = serve_http split_remote upstream c req r in
          r'.registry ≡ counted site.domain c.now_sec (sample_of c out) r.registry)
  unfolding serve_http
  registry-serve_http r site h = ground (arith, h, registry-serve_site site r)

  -- what a proxied request leaves
  pub registry-proxied :
      (r : Router) (site : Site) (sent : Request) (resp : Response)
      → lookup_host r.store req.host ≡ some site
      → (serve_http split_remote upstream c req r).0 ≡ proxied sent resp
      → (serve_http split_remote upstream c req r).1.registry
        ≡ record_at site.domain (answer_sample c resp) c.now_sec r.registry
  registry-proxied r site sent resp found h =
      registry-serve_http r site found
      ∙ ap (λ out. counted site.domain c.now_sec (sample_of c out) r.registry) h

  heap-limited :
      (domain : Text) (p q : ℕ) (rt : SiteRuntime) (r : Router)
      → q ≢ p
      → (let (out, r') = limited split_remote upstream domain p rt c req r in
          get_elem? r'.heap q ≡ get_elem? r.heap q)
  unfolding limited forward record_metric
  heap-limited domain p q rt r ne =
      let (_, limiter) = allow_opt (client_ip split_remote req r.trust_headers) c.now rt.limiter in
      let rt' = record rt { limiter = limiter } in
      let (_, pool) = next_url rt.pool in
      ground (
        arith,
        get_elem?-set_other r.heap p q rt' ne,
        get_elem?-set_other (set r.heap p rt') p q (record rt' { pool = pool }) ne,
      )

  find_runtime_sound :
      (domain : Text) (r : Router) (p : ℕ) (rt : SiteRuntime)
      → find_runtime split_remote upstream domain r ≡ some (p, rt)
      → lookup domain r.runtimes ≡ some p
  unfolding find_runtime
  find_runtime_sound domain r p rt h = elim (Option-cases (lookup domain r.runtimes)) [
    | inl missing ↦ absurd (ground arith)
    | inr (p', found) ↦ elim (Option-cases (get_elem? r.heap p')) [
      | inl out ↦ absurd (ground arith)
      | inr (x, there) ↦ ground arith
    ]
  ]

  heap-serve_site :
      (site : Site) (r : Router) (q : ℕ)
      → lookup site.domain r.runtimes ≢ some q
      → (let (out, r') = serve_site split_remote upstream site c req r in
          get_elem? r'.heap q ≡ get_elem? r.heap q)
  unfolding serve_site
  heap-serve_site site r q ne =
      elim (Option-cases (find_runtime split_remote upstream site.domain r)) [
        | inl missing ↦ ground arith
        | inr ((p, rt), found) ↦
            let here = find_runtime_sound site.domain r p rt found in
            ground (arith, heap-limited site.domain p q rt r (λ e. ne (here ∙ ap some (sym e))))
      ]

  -- A request changes no runtime but that of the site that its host is routed to: every other
  -- site's limiter and pool stay as they were.
  pub heap-serve_http :
      (r : Router) (site : Site) (q : ℕ)
      → lookup_host r.store req.host ≡ some site
      → lookup site.domain r.runtimes ≢ some q
      → get_elem? (serve_http split_remote upstream c req r).1.heap q ≡ get_elem? r.heap q
  unfolding serve_http
  heap-serve_http r site q h ne = ground (arith, h, heap-serve_site site r q ne)
