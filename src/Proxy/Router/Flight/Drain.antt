-- ===== src/Proxy/Router/Flight/Drain.antt =====
-- `Stop`, and requests that come before and after it.
use proxy_go.Prelude.{
  nat_beq, if◌then◌else◌, nat_beq_iff, Bool-cases, Option-cases, get_elem?, set,
  get_elem?-set_other, get_elem?-set_same, Text, nat_eq, text_eq, ℕ, zero, suc, ◌<◌, ◌≡◌, refl, sym,
  ap, subst, ◌∙◌, ◌⊎◌, inl, inr, true, false, Option, none, some, List, [], ◌∷◌, ◌++◌, arith,
}
use proxy_go.Dict.{lookup}
use proxy_go.Config.Site.{Url}
use proxy_go.Config.Store.{lookup_host}
use proxy_go.Proxy.Limiter.{allow_opt}
use proxy_go.Proxy.Request.{Request, client_ip}
use proxy_go.Proxy.Router.{unavailable}
use proxy_go.Proxy.Router.Flight.{
  Shared, Stage, arrived, admitted, routed, bound, granted, sent_out, answered, unlisted, counting,
  done, Tick, System, Move, arrive, go_on, replaced, reloaded, pruned, stopped, Runs, at_rest,
  onward, is_done, track, store_sample, take_token, pick_upstream, advance, fly, reload_shared,
}
use proxy_go.Proxy.Router.Flight.Tracking.{track-cases}
use proxy_go.Proxy.Router.Flight.Served.{advance-granted, advance-bound}
use proxy_go.Proxy.Router.Flight.Progress.{ahead, ahead-advance}

-- a request that is not there, has not been looked at, or has been turned away
abbrev pub IsOutside : Option (Request × Stage) → Type 0
IsOutside none = Unit
IsOutside (some f) = (f.1 ≡ arrived) ⊎ (f.1 ≡ done unavailable)

-- what a stop changes
abbrev pub halt : Shared → Shared
halt s = record s { stopping = true }

module _ (split_remote : Text → Option Text) where
  -- no access starts or stops the router
  stopping-advance :
      (t : Tick) (req : Request) (st : Stage) (s : Shared)
      → (advance split_remote t req st s).1.stopping ≡ s.stopping
  unfolding advance
  stopping-advance t req arrived s = refl
  stopping-advance t req admitted s = elim (Option-cases (lookup_host s.store req.host)) [
    | inl missing ↦ rw (missing, advance) refl
    | inr (site, found) ↦ rw (found, advance) refl
  ]
  stopping-advance t req (routed site) s = elim (Option-cases (lookup site.domain s.runtimes)) [
    | inl missing ↦ rw (missing, advance) refl
    | inr (p, found) ↦ rw (found, advance) refl
  ]
  stopping-advance t req (bound d p) s = elim (Option-cases (get_elem? s.heap p)) [
    | inl missing ↦ rw (missing, advance) refl
    | inr (rt, here) ↦
        rw (advance-bound split_remote t req d p rt s here) (unfold take_token in ground arith)
  ]
  stopping-advance t req (granted d p) s = elim (Option-cases (get_elem? s.heap p)) [
    | inl missing ↦ rw (missing, advance) refl
    | inr (rt, here) ↦
        rw (advance-granted split_remote t req d p rt s here) (unfold pick_upstream in refl)
  ]
  stopping-advance t req (sent_out d p sent) s = refl
  stopping-advance t req (answered d out sm) s = elim (Option-cases (lookup d s.sites)) [
    | inl missing ↦ rw (missing, advance) refl
    | inr (q, found) ↦ rw (found, advance) refl
  ]
  stopping-advance t req (unlisted d out sm) s = elim (track-cases d s) [
    | inl (q, held, e) ↦ rw e refl
    | inr (free, e) ↦ rw e refl
  ]
  stopping-advance t req (counting q out sm) s = unfold store_sample in refl
  stopping-advance t req (done out) s = refl

  -- the test of `stopping`
  unavailable-advance :
      (t : Tick) (req : Request) (st : Stage) (s : Shared)
      → is_done st ≡ false
      → s.stopping ≡ true
      → (st ≡ arrived) ⊎ (st ≡ done unavailable)
      → (advance split_remote t req st s).0 ≡ done unavailable
  unfolding advance
  unavailable-advance t req st s busy h (inl e) =
      subst (λ q. (advance split_remote t req q s).0 ≡ done unavailable) (sym e)
        (ap (λ b. if b then done unavailable else admitted) h)
  unavailable-advance t req st s busy h (inr e) =
      let clash : is_done (done unavailable) ≡ false = subst (λ q. is_done q ≡ false) e busy in
      absurd (ground arith)

  halt-track : (d : Text) (s : Shared) → track d (halt s) ≡ ((track d s).0, halt (track d s).1)
  unfolding track
  halt-track d s = elim (Option-cases (lookup d s.sites)) [
    | inl missing ↦ rw (missing, track) refl
    | inr (q, found) ↦ rw (found, track) refl
  ]

  halt-advance :
      (t : Tick) (req : Request) (st : Stage) (s : Shared)
      → ahead st < 9
      → advance split_remote t req st (halt s)
        ≡ ((advance split_remote t req st s).0, halt (advance split_remote t req st s).1)
  unfolding advance
  halt-advance t req arrived s late = absurd (omega arith)
  halt-advance t req admitted s late = elim (Option-cases (lookup_host s.store req.host)) [
    | inl missing ↦ rw (missing, advance) refl
    | inr (site, found) ↦ rw (found, advance) refl
  ]
  halt-advance t req (routed site) s late = elim (Option-cases (lookup site.domain s.runtimes)) [
    | inl missing ↦ rw (missing, advance) refl
    | inr (p, found) ↦ rw (found, advance) refl
  ]
  halt-advance t req (bound d p) s late = elim (Option-cases (get_elem? s.heap p)) [
    | inl missing ↦ rw (missing, advance) refl
    | inr (rt, here) ↦
        unfold take_token in
        elim (Bool-cases
          (allow_opt (client_ip split_remote req s.trust_headers) t.clock.now rt.limiter).0) [
            | inl ok ↦ rw (here, advance, ok) refl
            | inr refused ↦ rw (here, advance, refused) refl
          ]
  ]
  halt-advance t req (granted d p) s late = elim (Option-cases (get_elem? s.heap p)) [
    | inl missing ↦ rw (missing, advance) refl
    | inr (rt, here) ↦ rw (here, advance) refl
  ]
  halt-advance t req (sent_out d p sent) s late = refl
  halt-advance t req (answered d out sm) s late = elim (Option-cases (lookup d s.sites)) [
    | inl missing ↦ rw (missing, advance) refl
    | inr (q, found) ↦ rw (found, advance) refl
  ]
  halt-advance t req (unlisted d out sm) s late =
      ap (λ q. (counting q.0 out sm, q.1)) (halt-track d s)
  halt-advance t req (counting q out sm) s late = unfold store_sample in refl
  halt-advance t req (done out) s late = refl

  late-advance :
      (t : Tick) (req : Request) (st : Stage) (s : Shared)
      → ahead st < 9
      → ahead (advance split_remote t req st s).0 < 9
  unfolding advance
  late-advance t req (done out) s late = omega arith
  late-advance t req st s late = omega (arith, ahead-advance split_remote t req st s refl)

  -- A request that has been admitted, and whose accesses have nothing between them, goes on after
  -- a stop of the router as it would have gone on otherwise: it comes to the same stage in as many
  -- accesses, and leaves all else the same.
  pub fly-halt :
      (n : ℕ) (t : Tick) (req : Request) (st : Stage) (s : Shared)
      → ahead st < 9
      → fly split_remote n t req st (halt s)
        ≡ ((fly split_remote n t req st s).0, halt (fly split_remote n t req st s).1)
  unfolding fly
  fly-halt zero t req st s late = refl
  fly-halt (suc n) t req st s late =
      let (st', s') = advance split_remote t req st s in
      ap (λ q. fly split_remote n t req q.0 q.1) (halt-advance t req st s late)
      ∙ fly-halt n t req st' s' (late-advance t req st s late)

module _ (parse_url : Text → Option Url) (split_remote : Text → Option Text) where
  record IsClosed (i : ℕ) (s : System) : Type 0 where
    pub stopping : s.shared.stopping ≡ true
    pub outside : IsOutside (get_elem? s.flights i)

  IsOutside-append :
      (fs : List (Request × Stage)) (req : Request) (i : ℕ)
      → IsOutside (get_elem? fs i)
      → IsOutside (get_elem? (fs ++ (req, arrived) ∷ []) i)
  IsOutside-append [] req zero h = inl refl
  IsOutside-append [] req (suc i) h = tt
  IsOutside-append (f ∷ fs) req zero h = h
  IsOutside-append (f ∷ fs) req (suc i) h = IsOutside-append fs req i h

  IsClosed-go_on :
      (s : System) (i : ℕ) (t : Tick) (j : ℕ) (req : Request) (st : Stage)
      → get_elem? s.flights j ≡ some (req, st)
      → is_done st ≡ false
      → IsClosed i s
      → IsOutside (get_elem? (set s.flights j (req, (advance split_remote t req st s.shared).0)) i)
  IsClosed-go_on s i t j req st at busy c = elim (Bool-cases (nat_beq j i)) [
    | inl own ↦
        let here : j ≡ i = (nat_beq_iff j i).0 own in
        let st' = (advance split_remote t req st s.shared).0 in
        let was : IsOutside (some (req, st)) =
          subst IsOutside at
            (subst (λ k. IsOutside (get_elem? s.flights k)) (sym here) c.outside) in
        subst (λ k. IsOutside (get_elem? (set s.flights j (req, st')) k)) here
          (subst IsOutside (sym (get_elem?-set_same s.flights j (req, st') (req, st) at))
            (inr (unavailable-advance split_remote t req st s.shared busy c.stopping was)))
    | inr foreign ↦
        subst IsOutside
          (sym
            (get_elem?-set_other s.flights j i _ (λ e. cc (foreign, (nat_beq_iff j i).1 (sym e)))))
          c.outside
  ]

  IsClosed-Move :
      {s s' : System} (i : ℕ) → Move parse_url split_remote s s' → IsClosed i s → IsClosed i s'
  IsClosed-Move {s} i (arrive req) c = record {
    stopping = c.stopping;
    outside = IsOutside-append s.flights req i c.outside;
  }
  IsClosed-Move {s} i (go_on t j req st at busy) c = record {
    stopping = stopping-advance split_remote t req st s.shared ∙ c.stopping;
    outside = IsClosed-go_on s i t j req st at busy c;
  }
  IsClosed-Move i (replaced sites) c = record { stopping = c.stopping; outside = c.outside }
  IsClosed-Move i (reloaded sites) c =
      unfold reload_shared in record { stopping = c.stopping; outside = c.outside }
  IsClosed-Move i (pruned keep) c = record { stopping = c.stopping; outside = c.outside }
  IsClosed-Move i stopped c = record { stopping = refl; outside = c.outside }

  -- Once the router has been stopped, no order of moves starts it again, and a request that has
  -- not been admitted before never is: it waits to be looked at, or has been turned away as
  -- unavailable.
  pub IsOutside-Runs :
      {s s' : System} (i : ℕ)
      → Runs parse_url split_remote s s'
      → s.shared.stopping ≡ true
      → IsOutside (get_elem? s.flights i)
      → (s'.shared.stopping ≡ true) × IsOutside (get_elem? s'.flights i)
  IsOutside-Runs i at_rest h o = (h, o)
  IsOutside-Runs i (onward run move) h o =
      let (h', o') = IsOutside-Runs i run h o in
      let c = IsClosed-Move i move (record { stopping = h'; outside = o' }) in
      (c.stopping, c.outside)
