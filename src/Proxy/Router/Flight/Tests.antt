-- ===== src/Proxy/Router/Flight/Tests.antt =====
-- A request that goes from its arrival to its end, with a prune and a stop on its way.
use proxy_go.Prelude.{
  get_elem?, set, text_beq, nat_eq, text_eq, eq_of_beq, ◌%◌, ◌≡◌, refl, inl, true, false, some, [],
  ◌∷◌, arith,
}
use proxy_go.Text.{codes, to_lower, has_prefix, contains_text, last_index}
use proxy_go.Dict.{lookup, insert, restrict}
use proxy_go.Config.Site.{all_domains}
use proxy_go.Config.Store.{host_key, lookup_host, replace}
use proxy_go.Metrics.{Sample, u64, new_site}
use proxy_go.Metrics.Registry.{new_registry}
use proxy_go.Proxy.Limiter.{allow_opt}
use proxy_go.Proxy.Pool.{new_pool, next_url}
use proxy_go.Proxy.Paths.{is_exploit_path, is_scanner}
use proxy_go.Proxy.Request.{Request}
use proxy_go.Proxy.Writer.{observed}
use proxy_go.Proxy.Router.{Outcome, proxied, direct, serve_http}
use proxy_go.Proxy.Router.Flight.{
  Shared, Stage, arrived, admitted, routed, bound, granted, sent_out, answered, unlisted, counting,
  Tick, System, arrive, go_on, replaced, reloaded, pruned, Runs, at_rest, onward, is_done,
  sample_of_reply, advance, fly, reload_shared, new_system,
}
use proxy_go.Proxy.Router.Flight.Tracking.{IsTracked}
use proxy_go.Proxy.Router.Flight.Served.{IsServed, router_of}
use proxy_go.Proxy.Router.Flight.Alone.{fly-serve_http}
use proxy_go.Proxy.Router.Flight.Journeys.{IsProxied-Runs}
use proxy_go.Proxy.Router.Flight.Sound.{IsProxied}
use proxy_go.Proxy.Router.Flight.Drain.{IsOutside, halt, fly-halt, IsOutside-Runs}
use proxy_go.Proxy.Router.Flight.Recording.{total}
use proxy_go.Proxy.Router.Flight.Counted.{finished, total-Runs}
use proxy_go.Proxy.Router.Flight.Listed.{lookup-Runs}
use proxy_go.Proxy.Router.Sample.{parse_any, no_port, all_fine, shop, node_url, ready, clock, asked}

abbrev tick : Tick
tick = record { clock = clock; upstream = all_fine }

-- the sample router before anything has been recorded
abbrev shared : Shared
shared = record {
  store = ready.store;
  trust_headers = false;
  heap = ready.heap;
  runtimes = ready.runtimes;
  stopping = false;
  sites = [];
  stats = [];
}

fly-serve_http_example :
    IsServed
      (fly no_port 9 tick (asked "a.com") arrived shared)
      (serve_http no_port all_fine clock (asked "a.com") (router_of shared new_registry))
unfolding lookup
fly-serve_http_example =
    fly-serve_http no_port tick (asked "a.com") 9 shared new_registry (omega arith)
      (record {
        inside = λ d q e. absurd (ground arith);
        apart = λ d d' q e e'. absurd (ground arith);
      })
      (λ d. refl)

-- a system with the one site, and a request for it that has arrived
abbrev loaded : System
loaded =
    let s = (new_system false).shared in
    record {
      shared =
          reload_shared parse_any (shop ∷ [])
            (record s { store = replace (λ q. q) s.store (shop ∷ []) });
      flights = (asked "www.a.com:80", arrived) ∷ [];
    }

abbrev to_loaded : Runs parse_any no_port (new_system false) loaded
to_loaded =
    onward (onward (onward at_rest (replaced (shop ∷ []))) (reloaded (shop ∷ [])))
      (arrive (asked "www.a.com:80"))

-- the request goes on from a stage
abbrev then_from : Stage → System → System
then_from st s = record {
  shared = (advance no_port tick (asked "www.a.com:80") st s.shared).1;
  flights =
      set s.flights 0
        (asked "www.a.com:80", (advance no_port tick (asked "www.a.com:80") st s.shared).0);
}

abbrev sent : Request
sent = direct no_port false (some node_url) (asked "www.a.com:80")

abbrev waiting : System
waiting = then_from (granted (codes "a.com") 0) (
    then_from (bound (codes "a.com") 0)
      (then_from (routed shop) (then_from admitted (then_from arrived loaded))))

abbrev pace :
    {first s : System} (st : Stage)
    → Runs parse_any no_port first s
    → get_elem? s.flights 0 ≡ some (asked "www.a.com:80", st)
    → is_done st ≡ false
    → Runs parse_any no_port first (then_from st s)
pace st run at busy = onward run (go_on tick 0 (asked "www.a.com:80") st at busy)

abbrev until_sent :
    {first : System} → Runs parse_any no_port first loaded → Runs parse_any no_port first waiting
unfolding advance reload_shared lookup_host lookup replace all_domains insert text_beq to_lower
    host_key last_index is_exploit_path has_prefix is_scanner contains_text new_pool allow_opt
until_sent run =
    pace (granted (codes "a.com") 0)
      (pace (bound (codes "a.com") 0)
        (pace (routed shop) (pace admitted (pace arrived run refl refl) refl refl) refl refl) refl
        refl)
      refl refl

sent_test :
    get_elem? waiting.flights 0 ≡ some (asked "www.a.com:80", sent_out (codes "a.com") 0 sent)
unfolding advance lookup lookup_host reload_shared replace all_domains insert text_beq to_lower
    host_key last_index new_pool contains_text allow_opt next_url
sent_test = refl

IsProxied-Runs_example :
    IsProxied parse_any no_port false (λ q. q ≡ shop) (λ q. q ≡ shop) (asked "www.a.com:80") sent
unfolding until_sent
IsProxied-Runs_example =
    IsProxied-Runs parse_any no_port false (λ q. q ≡ shop) (λ q. q ≡ shop) 0 (asked "www.a.com:80")
      (sent_out (codes "a.com") 0 sent) sent (until_sent to_loaded)
      ((((((((tt, (refl, tt)), (refl, tt)), tt), tt), tt), tt), tt), tt) sent_test refl

-- the system once it has been stopped, and what the request meets
abbrev halted : System
halted = record loaded { shared = halt loaded.shared }

IsOutside-Runs_example :
    ((then_from arrived halted).shared.stopping ≡ true)
    × IsOutside (get_elem? (then_from arrived halted).flights 0)
IsOutside-Runs_example =
    IsOutside-Runs parse_any no_port 0 (pace {first = halted} arrived at_rest refl refl) refl
      (inl refl)

fly-halt_example : fly no_port 8 tick (asked "www.a.com:80") admitted (halt loaded.shared) ≡ (
  (fly no_port 8 tick (asked "www.a.com:80") admitted loaded.shared).0,
  halt (fly no_port 8 tick (asked "www.a.com:80") admitted loaded.shared).1,
)
fly-halt_example =
    fly-halt no_port 8 tick (asked "www.a.com:80") admitted loaded.shared (omega arith)

abbrev reply : Outcome
reply = proxied sent (observed (all_fine sent))

abbrev sample : Sample
sample = sample_of_reply tick (observed (all_fine sent))

-- the metrics are pruned between the last two accesses
abbrev pruned_then : System
pruned_then =
    let s = then_from (unlisted (codes "a.com") reply sample) (
      then_from (answered (codes "a.com") reply sample)
        (then_from (sent_out (codes "a.com") 0 sent) waiting)) in
    record s { shared = record s.shared { sites = restrict (λ d. false) s.shared.sites } }

abbrev to_end :
    Runs parse_any no_port (new_system false) (then_from (counting 0 reply sample) pruned_then)
unfolding until_sent next_url
to_end =
    pace (counting 0 reply sample)
      (onward
        (pace (unlisted (codes "a.com") reply sample)
          (pace (answered (codes "a.com") reply sample)
            (pace (sent_out (codes "a.com") 0 sent) (until_sent to_loaded) refl refl) refl refl)
          refl refl)
        (pruned (λ d. false)))
      refl refl

end_test : finished (then_from (counting 0 reply sample) pruned_then).flights ≡ 1
unfolding advance
end_test = refl

total-Runs_example :
    total (then_from (counting 0 reply sample) pruned_then).shared.stats % u64
    ≡ finished (then_from (counting 0 reply sample) pruned_then).flights % u64
total-Runs_example = total-Runs parse_any no_port false to_end

-- the request has found no counters, and in the meantime another one has made them
abbrev crossed : System
crossed = record {
  shared = record shared { sites = (codes "a.com", 0) ∷ []; stats = new_site ∷ [] };
  flights = (asked "www.a.com:80", unlisted (codes "a.com") reply sample) ∷ [];
}

crossed-IsTracked : IsTracked crossed.shared
unfolding lookup
crossed-IsTracked = record {
  inside = λ d q e. ground (arith, e);
  apart = λ d d' q e e'.
      ground (arith, e, e', eq_of_beq (codes "a.com") d, eq_of_beq (codes "a.com") d');
}

abbrev to_counting :
    Runs parse_any no_port crossed (then_from (unlisted (codes "a.com") reply sample) crossed)
to_counting = pace {first = crossed} (unlisted (codes "a.com") reply sample) at_rest refl refl

lookup-Runs_example :
    (lookup (codes "a.com") (then_from (unlisted (codes "a.com") reply sample) crossed).shared.sites
      ≡ some 0)
    × IsTracked (then_from (unlisted (codes "a.com") reply sample) crossed).shared
unfolding lookup text_beq
lookup-Runs_example =
    lookup-Runs parse_any no_port (codes "a.com") 0 to_counting crossed-IsTracked refl tt
