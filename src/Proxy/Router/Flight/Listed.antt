-- ===== src/Proxy/Router/Flight/Listed.antt =====
-- The counters of a domain stay the same ones, in any order of moves.
use proxy_go.Prelude.{
  if◌then◌else◌, Bool-cases, Option-cases, length, get_elem?, length-set, ◌==◌, Text, nat_eq,
  text_eq, eq_of_beq, ℕ, ◌≡◌, refl, sym, ap, subst, ◌∙◌, inl, inr, Bool, true, Option, none, some,
  List, arith,
}
use proxy_go.Dict.{lookup, restrict, lookup-insert, lookup-restrict}
use proxy_go.Config.Site.{Site, Url}
use proxy_go.Config.Store.{lookup_host}
use proxy_go.Proxy.Limiter.{allow_opt}
use proxy_go.Proxy.Request.{Request, client_ip}
use proxy_go.Proxy.Router.{SiteRuntime}
use proxy_go.Proxy.Router.Flight.{
  Shared, Stage, arrived, admitted, routed, bound, granted, sent_out, answered, unlisted, counting,
  done, Tick, System, arrive, go_on, replaced, reloaded, pruned, stopped, Runs, at_rest, onward,
  track, store_sample, take_token, pick_upstream, advance, reload_shared,
}
use proxy_go.Proxy.Router.Flight.Tracking.{IsTracked, track-cases, IsTracked-grown}
use proxy_go.Proxy.Router.Flight.Served.{advance-granted, advance-bound}

-- every domain has counters of its own, and this one has these
record IsListed (d : Text) (q : ℕ) (s : Shared) : Type 0 where
  pub tracked : IsTracked s
  pub listed : lookup d s.sites ≡ some q

IsListed-same :
    (d : Text) (q : ℕ) (s s' : Shared)
    → s'.sites ≡ s.sites
    → length s'.stats ≡ length s.stats
    → IsListed d q s
    → IsListed d q s'
IsListed-same d q s s' sites stats o = record {
  tracked = record {
    inside = λ k p e. omega (arith, o.tracked.inside k p (ap (lookup k) (sym sites) ∙ e), stats);
    apart = λ k k' p e e'.
        o.tracked.apart k k' p (ap (lookup k) (sym sites) ∙ e) (ap (lookup k') (sym sites) ∙ e');
  };
  listed = ap (lookup d) sites ∙ o.listed;
}

-- who looks again under the write lock leaves the counters of others alone, and finds those that
-- have been made
IsListed-track :
    (d : Text) (q : ℕ) (d' : Text) (s : Shared) → IsListed d q s → IsListed d q (track d' s).1
IsListed-track d q d' s o = elim (track-cases d' s) [
  | inl (p, held, e) ↦ rw e o
  | inr (free, e) ↦ rw e record {
    tracked = IsTracked-grown d' s free o.tracked;
    listed = elim (Bool-cases (d' == d)) [
      | inl same ↦ absurd (cc (free, o.listed, eq_of_beq d' d same))
      | inr other ↦
          lookup-insert d' d (length s.stats) s.sites
          ∙ ap (λ b. if b then some (length s.stats) else lookup d s.sites) other
          ∙ o.listed
    ];
  }
]

IsListed-restrict :
    (d : Text) (q : ℕ) (keep : Text → Bool) (s : Shared)
    → keep d ≡ true
    → IsListed d q s
    → IsListed d q (record s { sites = restrict keep s.sites })
IsListed-restrict d q keep s kept o = record {
  tracked = record {
    inside = λ k p e. ground (arith, lookup-restrict keep k s.sites, o.tracked.inside k p);
    apart = λ k k' p e e'. ground (
      arith,
      lookup-restrict keep k s.sites,
      lookup-restrict keep k' s.sites,
      o.tracked.apart k k' p,
    );
  };
  listed =
      lookup-restrict keep d s.sites
      ∙ ap (λ b. if b then lookup d s.sites else none) kept
      ∙ o.listed;
}

module _ (split_remote : Text → Option Text) (t : Tick) (req : Request) (d : Text) (q : ℕ) where
  IsListed-take_token :
      (k : Text) (p : ℕ) (rt : SiteRuntime) (s : Shared)
      → IsListed d q s
      → IsListed d q (take_token split_remote t req k p rt s).1
  unfolding take_token
  IsListed-take_token k p rt s o =
      elim (Bool-cases
        (allow_opt (client_ip split_remote req s.trust_headers) t.clock.now rt.limiter).0) [
          | inl ok ↦ rw ok (IsListed-same d q s _ refl refl o)
          | inr refused ↦ rw refused (IsListed-same d q s _ refl refl o)
        ]

  IsListed-advance :
      (st : Stage) (s : Shared) → IsListed d q s → IsListed d q (advance split_remote t req st s).1
  unfolding advance
  IsListed-advance arrived s o = o
  IsListed-advance admitted s o = elim (Option-cases (lookup_host s.store req.host)) [
    | inl missing ↦ rw (missing, advance) o
    | inr (site, found) ↦ rw (found, advance) o
  ]
  IsListed-advance (routed site) s o = elim (Option-cases (lookup site.domain s.runtimes)) [
    | inl missing ↦ rw (missing, advance) o
    | inr (p, found) ↦ rw (found, advance) o
  ]
  IsListed-advance (bound k p) s o = elim (Option-cases (get_elem? s.heap p)) [
    | inl missing ↦ rw (missing, advance) o
    | inr (rt, here) ↦
        subst (λ r. IsListed d q r.1) (sym (advance-bound split_remote t req k p rt s here))
          (IsListed-take_token k p rt s o)
  ]
  IsListed-advance (granted k p) s o = elim (Option-cases (get_elem? s.heap p)) [
    | inl missing ↦ rw (missing, advance) o
    | inr (rt, here) ↦
        subst (λ r. IsListed d q r.1) (sym (advance-granted split_remote t req k p rt s here))
          (unfold pick_upstream in IsListed-same d q s _ refl refl o)
  ]
  IsListed-advance (sent_out k p sent) s o = o
  IsListed-advance (answered k out sm) s o = elim (Option-cases (lookup k s.sites)) [
    | inl missing ↦ rw (missing, advance) o
    | inr (p, found) ↦ rw (found, advance) o
  ]
  IsListed-advance (unlisted k out sm) s o = IsListed-track d q k s o
  IsListed-advance (counting p out sm) s o =
      unfold store_sample in IsListed-same d q s _ refl (length-set s.stats p _) o
  IsListed-advance (done out) s o = o

module _ (parse_url : Text → Option Url) (split_remote : Text → Option Text) (d : Text) where
  -- no prune of the run drops the domain
  abbrev pub IsKept : {s s' : System} → Runs parse_url split_remote s s' → Type 0
  IsKept at_rest = Unit
  IsKept (onward run (pruned keep)) = IsKept run × (keep d ≡ true)
  IsKept (onward run _) = IsKept run

  IsListed-reload_shared :
      (q : ℕ) (sites : List Site) (s : Shared)
      → IsListed d q s
      → IsListed d q (reload_shared parse_url sites s)
  unfolding reload_shared
  IsListed-reload_shared q sites s o = IsListed-same d q s _ refl refl o

  IsListed-Runs :
      {s s' : System} (q : ℕ) (run : Runs parse_url split_remote s s')
      → IsKept run
      → IsListed d q s.shared
      → IsListed d q s'.shared
  IsListed-Runs q at_rest k o = o
  IsListed-Runs q (onward run (arrive req)) k o = IsListed-Runs q run k o
  IsListed-Runs q (onward {s'} run (go_on t i req st at busy)) k o =
      IsListed-advance split_remote t req d q st s'.shared (IsListed-Runs q run k o)
  IsListed-Runs q (onward {s'} run (replaced sites)) k o =
      IsListed-same d q s'.shared _ refl refl (IsListed-Runs q run k o)
  IsListed-Runs q (onward {s'} run (reloaded sites)) k o =
      IsListed-reload_shared q sites s'.shared (IsListed-Runs q run k o)
  IsListed-Runs q (onward {s'} run (pruned keep)) (k, kept) o =
      IsListed-restrict d q keep s'.shared kept (IsListed-Runs q run k o)
  IsListed-Runs q (onward {s'} run stopped) k o =
      IsListed-same d q s'.shared _ refl refl (IsListed-Runs q run k o)

  -- Once a domain has its counters, it keeps them in any order of moves in which no prune drops
  -- the domain, also if other requests for it have found it without counters before; and if no two
  -- domains share counters, none ever come to.
  pub lookup-Runs :
      {s s' : System} (q : ℕ) (run : Runs parse_url split_remote s s')
      → IsTracked s.shared
      → lookup d s.shared.sites ≡ some q
      → IsKept run
      → (lookup d s'.shared.sites ≡ some q) × IsTracked s'.shared
  lookup-Runs q run i held k =
      let o = IsListed-Runs q run k (record { tracked = i; listed = held }) in (o.listed, o.tracked)
