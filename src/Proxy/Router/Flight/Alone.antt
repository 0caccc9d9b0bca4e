-- ===== src/Proxy/Router/Flight/Alone.antt =====
-- A request that nothing comes between is served as `serve_http` says.
use proxy_go.Prelude.{
  if◌then◌else◌, Bool-cases, Option-cases, get_elem?, Text, nat_eq, text_eq, ℕ, suc, ◌-◌, ◌≤◌, ◌≡◌,
  refl, sym, ap, subst, inl, inr, false, not, ◌&&◌, ◌||◌, Option, none, some, arith,
}
use proxy_go.Dict.{lookup}
use proxy_go.Config.Site.{Site}
use proxy_go.Config.Store.{lookup_host}
use proxy_go.Metrics.Registry.{Registry}
use proxy_go.Proxy.Paths.{sanitize_host_for_log, is_exploit_path, is_scanner}
use proxy_go.Proxy.Request.{Request}
use proxy_go.Proxy.Router.{
  Router, unavailable, not_found, limited, find_runtime, serve_site, serve_http,
}
use proxy_go.Proxy.Router.Outcomes.{stopped-serve_http}
use proxy_go.Proxy.Router.Flight.{
  Shared, arrived, admitted, routed, bound, done, Tick, screen, advance, fly,
}
use proxy_go.Proxy.Router.Flight.Tracking.{IsTracked, Tracks}
use proxy_go.Proxy.Router.Flight.Served.{
  IsServed, router_of, IsServed-early, IsServed-next, IsServed-bound,
}

module _ (split_remote : Text → Option Text) (t : Tick) (req : Request) where
  IsServed-routed :
      (n : ℕ) (site : Site) (s : Shared) (g : Registry)
      → IsTracked s
      → Tracks s g
      → IsServed
          (fly split_remote (suc (suc (suc (suc (suc (suc (suc n))))))) t req (routed site) s)
          (elim (find_runtime split_remote t.upstream site.domain (router_of s g)) [
            | none ↦ (unavailable, router_of s g)
            | some (p, rt) ↦
                limited split_remote t.upstream site.domain p rt t.clock req (router_of s g)
          ])
  unfolding find_runtime advance
  IsServed-routed n site s g i agree = elim (Option-cases (lookup site.domain s.runtimes)) [
    | inl missing ↦ rw missing (
        IsServed-next split_remote t req (suc (suc (suc (suc (suc (suc n)))))) (routed site)
          (done unavailable) s s _ (rw (missing, advance) refl)
          (IsServed-early split_remote t req _ unavailable s g i agree))
    | inr (p, found) ↦
        let looked : advance split_remote t req (routed site) s ≡ (bound site.domain p, s) =
          rw (found, advance) refl in
        elim (Option-cases (get_elem? s.heap p)) [
          | inl nowhere ↦
              rw (found, nowhere)
                (IsServed-next split_remote t req (suc (suc (suc (suc (suc (suc n))))))
                  (routed site) (bound site.domain p) s s _ looked
                  (IsServed-next split_remote t req (suc (suc (suc (suc (suc n)))))
                    (bound site.domain p) (done unavailable) s s _ (rw (nowhere, advance) refl)
                    (IsServed-early split_remote t req _ unavailable s g i agree)))
          | inr (rt, here) ↦
              rw (found, here)
                (IsServed-next split_remote t req (suc (suc (suc (suc (suc (suc n))))))
                  (routed site) (bound site.domain p) s s _ looked
                  (IsServed-bound split_remote t req n site.domain p rt s g here i agree))
        ]
  ]

  IsServed-screen :
      (n : ℕ) (site : Site) (s : Shared) (g : Registry)
      → IsTracked s
      → Tracks s g
      → IsServed
          (fly split_remote (suc (suc (suc (suc (suc (suc (suc n))))))) t req (screen req site) s)
          (serve_site split_remote t.upstream site t.clock req (router_of s g))
  unfolding screen serve_site
  IsServed-screen n site s g i agree = elim (Bool-cases (site.http_to_https && not req.tls)) [
    | inl sent ↦ rw sent (IsServed-early split_remote t req _ _ s g i agree)
    | inr secure ↦
        elim (Bool-cases
          (site.block_common_exploits && (is_exploit_path req.path || is_scanner req.user_agent))) [
            | inl blocked ↦ rw (secure, blocked) (IsServed-early split_remote t req _ _ s g i agree)
            | inr harmless ↦ rw (secure, harmless) (IsServed-routed n site s g i agree)
          ]
  ]

  IsServed-admitted :
      (n : ℕ) (s : Shared) (g : Registry)
      → IsTracked s
      → Tracks s g
      → IsServed
          (fly split_remote (suc (suc (suc (suc (suc (suc (suc (suc n)))))))) t req admitted s)
          (elim (lookup_host s.store req.host) [
            | none ↦ (not_found (sanitize_host_for_log req.host), router_of s g)
            | some site ↦ serve_site split_remote t.upstream site t.clock req (router_of s g)
          ])
  unfolding advance
  IsServed-admitted n s g i agree =
      let missed = not_found (sanitize_host_for_log req.host) in
      elim (Option-cases (lookup_host s.store req.host)) [
        | inl missing ↦ rw missing (
            IsServed-next split_remote t req (suc (suc (suc (suc (suc (suc (suc n))))))) admitted
              (done missed) s s _ (rw (missing, advance) refl)
              (IsServed-early split_remote t req _ missed s g i agree))
        | inr (site, found) ↦ rw found (
            IsServed-next split_remote t req (suc (suc (suc (suc (suc (suc (suc n))))))) admitted
              (screen req site) s s _ (rw (found, advance) refl)
              (IsServed-screen n site s g i agree))
      ]

  running-serve_http :
      (r : Router)
      → r.stopping ≡ false
      → serve_http split_remote t.upstream t.clock req r ≡ (elim (lookup_host r.store req.host) [
        | none ↦ (not_found (sanitize_host_for_log req.host), r)
        | some site ↦ serve_site split_remote t.upstream site t.clock req r
      ])
  unfolding serve_http
  running-serve_http r running = simp running refl

  IsServed-arrived :
      (n : ℕ) (s : Shared) (g : Registry)
      → IsTracked s
      → Tracks s g
      → IsServed
          (fly split_remote (suc (suc (suc (suc (suc (suc (suc (suc (suc n))))))))) t req arrived s)
          (serve_http split_remote t.upstream t.clock req (router_of s g))
  IsServed-arrived n s g i agree =
      let flown =
        fly split_remote (suc (suc (suc (suc (suc (suc (suc (suc (suc n))))))))) t req arrived s in
      let left = suc (suc (suc (suc (suc (suc (suc (suc n))))))) in
      elim (Bool-cases s.stopping) [
        | inl stopping ↦
            let started : advance split_remote t req arrived s ≡ (done unavailable, s) =
              unfold advance in ap (λ b. (if b then done unavailable else admitted, s)) stopping in
            subst (IsServed flown)
              (sym
                (stopped-serve_http split_remote t.upstream t.clock req (router_of s g) stopping))
              (IsServed-next split_remote t req left arrived (done unavailable) s s _ started
                (IsServed-early split_remote t req left unavailable s g i agree))
        | inr running ↦
            let started : advance split_remote t req arrived s ≡ (admitted, s) =
              unfold advance in ap (λ b. (if b then done unavailable else admitted, s)) running in
            subst (IsServed flown) (sym (running-serve_http (router_of s g) running)) (
              IsServed-next split_remote t req left arrived admitted s s _ started
                (IsServed-admitted n s g i agree))
      ]

  -- A request that goes from its arrival to its end with nothing between, while every domain has
  -- counters of its own, comes to the outcome of `serve_http`, and leaves the router as that does,
  -- with the same counters for each domain. Nine accesses are enough.
  pub fly-serve_http :
      (n : ℕ) (s : Shared) (g : Registry)
      → 9 ≤ n
      → IsTracked s
      → Tracks s g
      → IsServed
          (fly split_remote n t req arrived s)
          (serve_http split_remote t.upstream t.clock req (router_of s g))
  fly-serve_http n s g enough i agree =
      let same : suc (suc (suc (suc (suc (suc (suc (suc (suc (n - 9))))))))) ≡ n = omega arith in
      rw same at (IsServed-arrived (n - 9) s g i agree)
