-- ===== src/Proxy/Router/Tests.antt =====
-- Runs of the sample router.
use proxy_go.Prelude.{
  get_elem?, text_beq, nat_eq, text_eq, ℕ, ◌≡◌, refl, false, none, some, [], ◌∷◌, arith,
}
use proxy_go.Text.{codes, to_lower, has_prefix, contains_text, last_index}
use proxy_go.Dict.{lookup, insert}
use proxy_go.Config.Site.{Site, all_domains}
use proxy_go.Config.Store.{new_store, host_key, lookup_host, replace}
use proxy_go.Metrics.Registry.{new_registry, record_at}
use proxy_go.Proxy.Pool.{parse_upstream, new_pool, next_url}
use proxy_go.Proxy.Limiter.{new_limiter, allow_opt}
use proxy_go.Proxy.Writer.{observed}
use proxy_go.Proxy.Paths.{is_exploit_path, is_scanner}
use proxy_go.Proxy.Request.{
  Request, get_header, x_real_ip, x_forwarded_host, x_forwarded_proto, peer, scheme_of,
}
use proxy_go.Proxy.Router.{
  SiteRuntime, Router, proxied, new_router, stop, reload, direct, forward, limited, find_runtime,
  serve_site, serve_http,
}
use proxy_go.Proxy.Router.Director.{direct-untrusted, direct-client_proto}
use proxy_go.Proxy.Router.Outcomes.{IsPassed, serve_http-early, serve_http-IsPassed}
use proxy_go.Proxy.Router.Counts.{
  answer_sample, sample_of, counted, registry-serve_http, heap-serve_http,
}
use proxy_go.Proxy.Router.Runtimes.{site_at, last_named, site_at-reload, collision_lem}
use proxy_go.Proxy.Router.Built.{replaced, reloaded, Reach, fresh, after}
use proxy_go.Proxy.Router.Targets.{IsTarget, IsTarget-serve_http}
use proxy_go.Proxy.Router.Sample.{
  parse_any, no_port, all_fine, shop, mall, node_url, ready, clock, asked, what_is_sent,
}
use proxy_go.Proxy.Answer.{Reply, failed}

direct-untrusted_test :
    (get_header x_real_ip (direct no_port false (some node_url) (asked "a.com"))
      ≡ peer no_port (asked "a.com"))
    × (get_header x_forwarded_host (direct no_port false (some node_url) (asked "a.com"))
        ≡ codes "a.com")
    × (get_header x_forwarded_proto (direct no_port false (some node_url) (asked "a.com"))
        ≡ scheme_of (asked "a.com"))
direct-untrusted_test = direct-untrusted no_port node_url (asked "a.com")

direct-client_proto_test :
    get_header x_forwarded_proto (direct no_port false (some node_url) (asked "a.com"))
    ≡ get_header x_forwarded_proto (asked "a.com")
direct-client_proto_test =
    direct-client_proto no_port node_url (asked "a.com") false refl
      (unfold get_header in unfold lookup in unfold text_beq in λ e. ground (arith, e))

serve_http-early_example :
    (serve_http no_port all_fine clock (asked "c.com") (stop ready)).1 ≡ stop ready
unfolding serve_http stop
serve_http-early_example = serve_http-early no_port all_fine clock (asked "c.com") (stop ready) refl

serve_http_test :
    (serve_http no_port all_fine clock (asked "a.com") ready).0
    ≡ proxied what_is_sent (observed (all_fine what_is_sent))
unfolding serve_http serve_site find_runtime limited forward lookup_host host_key to_lower
    last_index lookup text_beq is_exploit_path is_scanner has_prefix contains_text next_url
    allow_opt
serve_http_test = refl

serve_http-IsPassed_example :
    (site : Site) × (lookup_host ready.store (codes "a.com") ≡ some site)
    × (ready.stopping ≡ false)
    × IsPassed no_port all_fine clock
        (asked "a.com")
        site
        what_is_sent
        (observed (all_fine what_is_sent))
    × ((serve_http no_port all_fine clock (asked "a.com") ready).1.registry
        ≡ record_at site.domain
            (answer_sample clock (observed (all_fine what_is_sent)))
            clock.now_sec
            ready.registry)
serve_http-IsPassed_example =
    serve_http-IsPassed no_port all_fine clock (asked "a.com") ready what_is_sent
      (observed (all_fine what_is_sent)) serve_http_test

site_at-reload_test :
    site_at
      (reload parse_any (shop ∷ mall ∷ []) ready).heap
      (lookup (codes "a.com") (reload parse_any (shop ∷ mall ∷ []) ready).runtimes)
    ≡ last_named parse_any (codes "a.com") none (shop ∷ mall ∷ [])
site_at-reload_test = site_at-reload parse_any (shop ∷ mall ∷ []) ready (codes "a.com")

collision_lem_example :
    (lookup_host (replace (λ s. s) ready.store (shop ∷ mall ∷ [])) (codes "www.a.com") ≡ some shop)
    × (site_at
          (reload parse_any (shop ∷ mall ∷ []) ready).heap
          (lookup (codes "a.com") (reload parse_any (shop ∷ mall ∷ []) ready).runtimes)
        ≡ some mall)
unfolding new_pool parse_upstream contains_text all_domains host_key to_lower last_index text_beq
collision_lem_example =
    collision_lem parse_any shop mall ready.store ready (codes "www.a.com") refl refl refl refl refl

registry-serve_http_example :
    (serve_http no_port all_fine clock (asked "a.com") ready).1.registry
    ≡ counted
        (codes "a.com")
        5
        (sample_of clock (serve_http no_port all_fine clock (asked "a.com") ready).0)
        new_registry
unfolding lookup_host host_key to_lower last_index lookup text_beq
registry-serve_http_example =
    registry-serve_http no_port all_fine clock (asked "a.com") ready shop refl

heap-serve_http_test :
    get_elem? (serve_http no_port all_fine clock (asked "a.com") ready).1.heap 1
    ≡ get_elem? ready.heap 1
unfolding lookup_host host_key to_lower last_index lookup text_beq
heap-serve_http_test =
    heap-serve_http no_port all_fine clock (asked "a.com") ready shop 1 refl
      (λ e. ground (arith, e))

abbrev fresh_router : Router
fresh_router = new_router new_store new_registry false

abbrev stored : Router
stored = record fresh_router { store = replace (λ s. s) fresh_router.store (shop ∷ []) }

abbrev loaded : Router
loaded = reload parse_any (shop ∷ []) stored

loaded-Reach : Reach parse_any no_port all_fine false loaded
loaded-Reach = after (after fresh (replaced (shop ∷ []))) (reloaded (shop ∷ []))

loaded_test :
    (serve_http no_port all_fine clock (asked "a.com") loaded).0
    ≡ proxied what_is_sent (observed (all_fine what_is_sent))
unfolding serve_http reload lookup_host lookup replace all_domains insert text_beq to_lower host_key
    last_index serve_site is_exploit_path has_prefix is_scanner contains_text find_runtime limited
    forward next_url allow_opt new_pool parse_upstream new_limiter
loaded_test = refl

IsTarget-serve_http_test :
    (site : Site) × (rt : SiteRuntime) × (p : ℕ) × (lookup_host loaded.store (codes "a.com")
      ≡ some site)
    × (find_runtime no_port all_fine site.domain loaded ≡ some (p, rt))
    × IsTarget parse_any no_port all_fine loaded (asked "a.com") rt what_is_sent
IsTarget-serve_http_test =
    IsTarget-serve_http parse_any no_port all_fine loaded clock (asked "a.com") what_is_sent
      (observed (all_fine what_is_sent)) loaded-Reach loaded_test

-- an upstream that does not answer
abbrev down : Request → Reply
down req = failed
