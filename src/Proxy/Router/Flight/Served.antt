-- ===== src/Proxy/Router/Flight/Served.antt =====
-- The last accesses of a request that nothing comes between: the limiter, the proxy, the recording.
use proxy_go.Prelude.{
  Bool-cases, Option-cases, get_elem?, set, get_elem?-set_same, Text, nat_eq, text_eq, ℕ, zero, suc,
  ◌≡◌, refl, sym, subst, ◌∙◌, inl, inr, Option, some, List,
}
use proxy_go.Dict.{lookup}
use proxy_go.Metrics.{Sample}
use proxy_go.Metrics.Registry.{Registry, record_at}
use proxy_go.Proxy.Limiter.{allow_opt}
use proxy_go.Proxy.Pool.{next_url}
use proxy_go.Proxy.Request.{Request, client_ip}
use proxy_go.Proxy.Writer.{observed}
use proxy_go.Proxy.Router.{
  SiteRuntime, Router, Outcome, too_many, proxied, record_metric, direct, forward, limited,
}
use proxy_go.Proxy.Router.Flight.{
  Shared, Stage, bound, granted, sent_out, answered, unlisted, counting, done, Tick,
  sample_of_reply, refusal, track, store_sample, take_token, pick_upstream, advance, fly,
}
use proxy_go.Proxy.Router.Flight.Tracking.{
  IsTracked, Tracks, track-cases, recorded_alone, Tracks-recorded_alone,
}

-- the router of the atomic view, with a registry
abbrev pub router_of : Shared → Registry → Router
router_of s g = record {
  store = s.store;
  registry = g;
  trust_headers = s.trust_headers;
  heap = s.heap;
  runtimes = s.runtimes;
  stopping = s.stopping;
}

-- what a flight has come to: an outcome and a state that is, but for the places of the counters, the
-- one that the router has come to
pub record IsServed (end : Stage × Shared) (served : Outcome × Router) : Type 0 where
  pub outcome : end.0 ≡ done served.0
  pub same : router_of end.1 served.1.registry ≡ served.1
  pub tracked : IsTracked end.1
  pub tracks : Tracks end.1 served.1.registry

router_of-recorded_alone :
    (domain : Text) (sm : Sample) (now : ℕ) (s : Shared) (g : Registry)
    → router_of (recorded_alone domain sm now s) g ≡ router_of s g
unfolding store_sample
router_of-recorded_alone domain sm now s g = elim (track-cases domain s) [
  | inl (q, held, e) ↦ rw e refl
  | inr (free, e) ↦ rw e refl
]

-- the counters do not depend on the runtimes
IsTracked-heap :
    (s : Shared) (heap : List SiteRuntime) → IsTracked s → IsTracked (record s { heap = heap })
IsTracked-heap s heap i = record { inside = i.inside; apart = i.apart }

module _ (split_remote : Text → Option Text) (t : Tick) (req : Request) where
  fly_done :
      (n : ℕ) (out : Outcome) (s : Shared) → fly split_remote n t req (done out) s ≡ (done out, s)
  unfolding fly advance
  fly_done zero out s = refl
  fly_done (suc n) out s = fly_done n out s

  -- nothing has been recorded
  pub IsServed-early :
      (n : ℕ) (out : Outcome) (s : Shared) (g : Registry)
      → IsTracked s
      → Tracks s g
      → IsServed (fly split_remote n t req (done out) s) (out, router_of s g)
  IsServed-early n out s g i tr =
      rw (fly_done n out s) record { outcome = refl; same = refl; tracked = i; tracks = tr }

  -- one access, and then the rest
  pub IsServed-next :
      (n : ℕ) (st st' : Stage) (s s' : Shared) (served : Outcome × Router)
      → advance split_remote t req st s ≡ (st', s')
      → IsServed (fly split_remote n t req st' s') served
      → IsServed (fly split_remote (suc n) t req st s) served
  unfolding fly
  IsServed-next n st st' s s' served e h =
      subst (λ q. IsServed (fly split_remote n t req q.0 q.1) served) (sym e) h

  -- with the counters found, or made
  IsServed-counting :
      (n : ℕ) (domain : Text) (out : Outcome) (sm : Sample) (q : ℕ) (s s' : Shared) (g : Registry)
      → track domain s ≡ (q, s')
      → IsTracked s
      → Tracks s g
      → IsServed
          (fly split_remote (suc n) t req (counting q out sm) s')
          (out, router_of s (record_at domain sm t.clock.now_sec g))
  unfolding fly advance
  IsServed-counting n domain out sm q s s' g e i agree =
      let after = recorded_alone domain sm t.clock.now_sec s in
      let (i', agree') = Tracks-recorded_alone domain sm t.clock.now_sec s g i agree in
      let found : IsServed
          (fly split_remote (suc n) t req (counting (track domain s).0 out sm) (track domain s).1)
          (out, router_of s (record_at domain sm t.clock.now_sec g)) =
        rw (fly_done n out after) record {
          outcome = refl;
          same = router_of-recorded_alone domain sm t.clock.now_sec s _;
          tracked = i';
          tracks = agree';
        } in
      subst
        (λ r.
          IsServed (fly split_remote (suc n) t req (counting r.0 out sm) r.1)
            (out, router_of s (record_at domain sm t.clock.now_sec g)))
        e found

  IsServed-answered :
      (n : ℕ) (domain : Text) (out : Outcome) (sm : Sample) (s : Shared) (g : Registry)
      → IsTracked s
      → Tracks s g
      → IsServed
          (fly split_remote (suc (suc (suc n))) t req (answered domain out sm) s)
          (out, router_of s (record_at domain sm t.clock.now_sec g))
  unfolding advance
  IsServed-answered n domain out sm s g i agree = elim (Option-cases (lookup domain s.sites)) [
    | inl missing ↦
        IsServed-next (suc (suc n)) (answered domain out sm) (unlisted domain out sm) s s _
          (rw (missing, advance) refl)
          (IsServed-next (suc n) (unlisted domain out sm) (counting (track domain s).0 out sm) s
            (track domain s).1 _ refl (IsServed-counting n domain out sm _ s _ g refl i agree))
    | inr (q, found) ↦
        IsServed-next (suc (suc n)) (answered domain out sm) (counting q out sm) s s _
          (rw (found, advance) refl)
          (IsServed-counting (suc n) domain out sm q s s g (rw (found, track) refl) i agree)
  ]

  pub advance-granted :
      (domain : Text) (p : ℕ) (rt : SiteRuntime) (s : Shared)
      → get_elem? s.heap p ≡ some rt
      → advance split_remote t req (granted domain p) s
        ≡ pick_upstream split_remote req domain p rt s
  unfolding advance
  advance-granted domain p rt s here = rw (here, advance) refl

  pub advance-bound :
      (domain : Text) (p : ℕ) (rt : SiteRuntime) (s : Shared)
      → get_elem? s.heap p ≡ some rt
      → advance split_remote t req (bound domain p) s ≡ take_token split_remote t req domain p rt s
  unfolding advance
  advance-bound domain p rt s here = rw (here, advance) refl

  IsServed-granted :
      (n : ℕ) (domain : Text) (p : ℕ) (rt : SiteRuntime) (s : Shared) (g : Registry)
      → get_elem? s.heap p ≡ some rt
      → IsTracked s
      → Tracks s g
      → IsServed
          (fly split_remote (suc (suc (suc (suc (suc n))))) t req (granted domain p) s)
          (forward split_remote t.upstream domain p rt t.clock req (router_of s g))
  unfolding forward record_metric
  IsServed-granted n domain p rt s g here i agree =
      let s' = record s { heap = set s.heap p (record rt { pool = (next_url rt.pool).1 }) } in
      let sent = direct split_remote s.trust_headers (next_url rt.pool).0 req in
      let resp = observed (t.upstream sent) in
      let picked : pick_upstream split_remote req domain p rt s ≡ (sent_out domain p sent, s') =
        unfold pick_upstream in refl in
      let replied : advance split_remote t req (sent_out domain p sent) s'
          ≡ (answered domain (proxied sent resp) (sample_of_reply t resp), s') =
        unfold advance in refl in
      IsServed-next (suc (suc (suc (suc n)))) (granted domain p) (sent_out domain p sent) s s' _
        (advance-granted domain p rt s here ∙ picked)
        (IsServed-next (suc (suc (suc n))) (sent_out domain p sent)
          (answered domain (proxied sent resp) (sample_of_reply t resp)) s' s' _ replied
          (IsServed-answered n domain _ _ s' g (IsTracked-heap s s'.heap i) agree))

  pub IsServed-bound :
      (n : ℕ) (domain : Text) (p : ℕ) (rt : SiteRuntime) (s : Shared) (g : Registry)
      → get_elem? s.heap p ≡ some rt
      → IsTracked s
      → Tracks s g
      → IsServed
          (fly split_remote (suc (suc (suc (suc (suc (suc n)))))) t req (bound domain p) s)
          (limited split_remote t.upstream domain p rt t.clock req (router_of s g))
  unfolding limited record_metric
  IsServed-bound n domain p rt s g here i agree =
      let allowed = allow_opt (client_ip split_remote req s.trust_headers) t.clock.now rt.limiter in
      let rt' = record rt { limiter = allowed.1 } in
      let s' = record s { heap = set s.heap p rt' } in
      let i' = IsTracked-heap s s'.heap i in
      elim (Bool-cases allowed.0) [
        | inl ok ↦
            let taken : take_token split_remote t req domain p rt s ≡ (granted domain p, s') =
              unfold take_token in rw ok refl in
            rw ok (
              IsServed-next (suc (suc (suc (suc (suc n))))) (bound domain p) (granted domain p) s s'
                _ (advance-bound domain p rt s here ∙ taken)
                (IsServed-granted n domain p rt' s' g (get_elem?-set_same s.heap p rt' rt here) i'
                  agree))
        | inr refused ↦
            let taken : take_token split_remote t req domain p rt s
                ≡ (answered domain too_many (refusal t), s') =
              unfold take_token in rw refused refl in
            rw refused (
              IsServed-next (suc (suc (suc (suc (suc n))))) (bound domain p)
                (answered domain too_many (refusal t)) s s' _
                (advance-bound domain p rt s here ∙ taken)
                (IsServed-answered (suc (suc n)) domain too_many (refusal t) s' g i' agree))
      ]
