-- ===== src/Proxy/Router/Flight/Journeys.antt =====
-- Where requests are sent, in every system that any number of moves leads to.
use proxy_go.Prelude.{
  get_elem?, All, All-append, All-get_elem?, All-set, All-imply, Text, nat_eq, text_eq, ℕ, ◌≡◌,
  refl, subst, Bool, true, Option, none, some, List, [], ◌∷◌, ◌++◌, arith,
}
use proxy_go.Dict.{lookup}
use proxy_go.Config.Site.{Site, Url}
use proxy_go.Config.Store.{Store, host_key, lookup_host, replace}
use proxy_go.Config.Store.Routing.{serves, lookup_host-replace_iff}
use proxy_go.Proxy.Request.{Request}
use proxy_go.Proxy.Router.{
  SiteRuntime, Outcome, unavailable, forbidden, too_many, not_found, redirect, proxied,
}
use proxy_go.Proxy.Router.Flight.{
  Shared, Stage, arrived, admitted, routed, bound, granted, sent_out, answered, unlisted, counting,
  done, System, Move, arrive, go_on, replaced, reloaded, pruned, stopped, Runs, at_rest, onward,
  advance, reload_shared, new_system,
}
use proxy_go.Proxy.Router.Flight.Heap.{Extends, IsNaming, reload_sites_lem, given-reload_sites}
use proxy_go.Proxy.Router.Flight.Sound.{
  IsSoundShared, IsProxied, IsSoundOutcome, IsSoundStage, IsSoundStage-Extends,
}
use proxy_go.Proxy.Router.Flight.Interleaved.{advance_sound}
use proxy_go.Proxy.Router.Built.{IsBuilt-reload_sites}

-- what the upstream has been sent, from the moment that it has been
abbrev outcome_sent : Outcome → Option Request
outcome_sent (proxied sent resp) = some sent
outcome_sent _ = none

abbrev pub sent_of : Stage → Option Request
sent_of (sent_out d p sent) = some sent
sent_of (answered d out sm) = outcome_sent out
sent_of (unlisted d out sm) = outcome_sent out
sent_of (counting q out sm) = outcome_sent out
sent_of (done out) = outcome_sent out
sent_of _ = none

All-middle {ℓ κ} :
    {A : Type ℓ} (P : A → Type κ) (xs : List A) (x : A) (ys : List A) → All P (xs ++ x ∷ ys) → P x
All-middle P [] x ys (p, h) = p
All-middle P (y ∷ xs) x ys (p, h) = All-middle P xs x ys h

module _ (parse_url : Text → Option Url) (split_remote : Text → Option Text) (trust : Bool)
    (S R : Site → Type 0) where
  abbrev IsSoundFlight : List SiteRuntime → Request × Stage → Type 0
  IsSoundFlight heap f = IsSoundStage parse_url split_remote trust S R heap f.0 f.1

  record IsSoundSystem (s : System) : Type 0 where
    shared : IsSoundShared parse_url split_remote trust S R s.shared
    flights : All (IsSoundFlight s.shared.heap) s.flights

  IsSoundFlight-Extends :
      (a b : List SiteRuntime) (fs : List (Request × Stage))
      → Extends a b
      → All (IsSoundFlight a) fs
      → All (IsSoundFlight b) fs
  IsSoundFlight-Extends a b fs e =
      All-imply (IsSoundFlight a) (IsSoundFlight b) fs
        (λ f. IsSoundStage-Extends parse_url split_remote trust S R a b f.0 f.1 e)

  IsNaming-none : (heap : List SiteRuntime) → IsNaming heap []
  unfolding lookup
  IsNaming-none heap d p h = absurd (ground arith)

  IsSoundShared-reload_shared :
      (sites : List Site) (s : Shared)
      → All R sites
      → IsSoundShared parse_url split_remote trust S R s
      → IsSoundShared parse_url split_remote trust S R (reload_shared parse_url sites s)
        × Extends s.heap (reload_shared parse_url sites s).heap
  unfolding reload_shared
  IsSoundShared-reload_shared sites s g o =
      let (further, naming) = reload_sites_lem parse_url sites s.heap [] (IsNaming-none s.heap) in
      (
        record {
          built = IsBuilt-reload_sites parse_url split_remote (λ q. []) sites s.heap [] o.built;
          given = given-reload_sites parse_url R sites s.heap [] g o.given;
          naming = naming;
          routes = o.routes;
          trusting = o.trusting;
        },
        further,
      )

  -- a store that `Replace` has filled routes by the names of the sites
  routes-replace :
      (a : Store Site) (sites : List Site) (host : Text) (site : Site)
      → All S sites
      → lookup_host (replace (λ q. q) a sites) host ≡ some site
      → S site × (serves site (host_key host) ≡ true)
  routes-replace a sites host site g h =
      let o = (lookup_host-replace_iff (λ q. q) a sites host site).0 h in
      (All-middle S o.before site o.after (rw o.parts at g), o.serving)

  -- the sites of a move are such sites
  abbrev pub IsGiven : {s s' : System} → Move parse_url split_remote s s' → Type 0
  IsGiven (replaced sites) = All S sites
  IsGiven (reloaded sites) = All R sites
  IsGiven (arrive req) = Unit
  IsGiven (go_on t i req st at busy) = Unit
  IsGiven (pruned keep) = Unit
  IsGiven stopped = Unit

  -- the sites of all the moves are
  abbrev pub AreGiven : {s s' : System} → Runs parse_url split_remote s s' → Type 0
  AreGiven at_rest = Unit
  AreGiven (onward run move) = AreGiven run × IsGiven move

  IsSoundSystem-Move :
      {s s' : System} (move : Move parse_url split_remote s s')
      → IsGiven move
      → IsSoundSystem s
      → IsSoundSystem s'
  IsSoundSystem-Move {s} (arrive req) g o = record {
    shared = o.shared;
    flights =
        All-append (IsSoundFlight s.shared.heap) s.flights ((req, arrived) ∷ []) o.flights (tt, tt);
  }
  IsSoundSystem-Move {s} (go_on t i req st at busy) g o =
      let was = All-get_elem? (IsSoundFlight s.shared.heap) s.flights i (req, st) o.flights at in
      let step = advance_sound parse_url split_remote trust S R t req st s.shared o.shared was in
      let (st', s') = advance split_remote t req st s.shared in
      record {
        shared = step.shared;
        flights =
            All-set (IsSoundFlight s'.heap) s.flights i (req, st')
              (IsSoundFlight-Extends s.shared.heap s'.heap s.flights step.further o.flights)
              step.stage;
      }
  IsSoundSystem-Move {s} (replaced sites) g o = record {
    shared = record {
      built = o.shared.built;
      given = o.shared.given;
      naming = o.shared.naming;
      routes = λ host site h. routes-replace s.shared.store sites host site g h;
      trusting = o.shared.trusting;
    };
    flights = o.flights;
  }
  IsSoundSystem-Move {s} (reloaded sites) g o =
      let (shared', further) = IsSoundShared-reload_shared sites s.shared g o.shared in
      record {
        shared = shared';
        flights = IsSoundFlight-Extends s.shared.heap _ s.flights further o.flights;
      }
  IsSoundSystem-Move (pruned keep) g o = record {
    shared = record {
      built = o.shared.built;
      given = o.shared.given;
      naming = o.shared.naming;
      routes = o.shared.routes;
      trusting = o.shared.trusting;
    };
    flights = o.flights;
  }
  IsSoundSystem-Move stopped g o = record {
    shared = record {
      built = o.shared.built;
      given = o.shared.given;
      naming = o.shared.naming;
      routes = o.shared.routes;
      trusting = o.shared.trusting;
    };
    flights = o.flights;
  }

  IsSoundSystem-Runs :
      {s : System} (run : Runs parse_url split_remote (new_system trust) s)
      → AreGiven run
      → IsSoundSystem s
  IsSoundSystem-Runs at_rest g = record {
    shared = record {
      built = tt;
      given = tt;
      naming = IsNaming-none [];
      routes = λ host site h. unfold lookup_host in unfold lookup in absurd (ground arith);
      trusting = refl;
    };
    flights = tt;
  }
  IsSoundSystem-Runs (onward run move) (gs, g) =
      IsSoundSystem-Move move g (IsSoundSystem-Runs run gs)

  outcome_sent_sound :
      (req : Request) (out : Outcome) (sent : Request)
      → IsSoundOutcome parse_url split_remote trust S R req out
      → outcome_sent out ≡ some sent
      → IsProxied parse_url split_remote trust S R req sent
  outcome_sent_sound req (proxied to resp) sent h e =
      subst (IsProxied parse_url split_remote trust S R req) (cc) h
  outcome_sent_sound req unavailable sent h e = absurd (ground arith)
  outcome_sent_sound req (not_found host) sent h e = absurd (ground arith)
  outcome_sent_sound req (redirect url) sent h e = absurd (ground arith)
  outcome_sent_sound req forbidden sent h e = absurd (ground arith)
  outcome_sent_sound req too_many sent h e = absurd (ground arith)

  sent_of_sound :
      (heap : List SiteRuntime) (req : Request) (st : Stage) (sent : Request)
      → IsSoundStage parse_url split_remote trust S R heap req st
      → sent_of st ≡ some sent
      → IsProxied parse_url split_remote trust S R req sent
  sent_of_sound heap req (sent_out d p to) sent h e =
      subst (IsProxied parse_url split_remote trust S R req) (cc) h
  sent_of_sound heap req (answered d out sm) sent h e = outcome_sent_sound req out sent h e
  sent_of_sound heap req (unlisted d out sm) sent h e = outcome_sent_sound req out sent h e
  sent_of_sound heap req (counting q out sm) sent h e = outcome_sent_sound req out sent h e
  sent_of_sound heap req (done out) sent h e = outcome_sent_sound req out sent h e
  sent_of_sound heap req arrived sent h e = absurd (ground arith)
  sent_of_sound heap req admitted sent h e = absurd (ground arith)
  sent_of_sound heap req (routed site) sent h e = absurd (ground arith)
  sent_of_sound heap req (bound d p) sent h e = absurd (ground arith)
  sent_of_sound heap req (granted d p) sent h e = absurd (ground arith)

  -- Many requests at once, with reloads and prunes between their accesses: whatever has been sent to
  -- an upstream for a request was sent by the director to an upstream of a site of a list that `Reload`
  -- was given, or nowhere if that has none; and that site has among its names the domain of an enabled
  -- site of a list that `Replace` was given and that has the request's host. `S` and `R` are whatever
  -- holds of all the sites that `Replace` and `Reload` are given.
  pub IsProxied-Runs :
      {s : System} (i : ℕ) (req : Request) (st : Stage) (sent : Request)
      (run : Runs parse_url split_remote (new_system trust) s)
      → AreGiven run
      → get_elem? s.flights i ≡ some (req, st)
      → sent_of st ≡ some sent
      → IsProxied parse_url split_remote trust S R req sent
  IsProxied-Runs {s} i req st sent run given at e =
      let o = IsSoundSystem-Runs run given in
      sent_of_sound s.shared.heap req st sent
        (All-get_elem? (IsSoundFlight s.shared.heap) s.flights i (req, st) o.flights at) e
