-- ===== src/Proxy/Router/Flight/Counted.antt =====
-- The counters of all domains together, and the requests that have been recorded, in any order of
-- moves.
use proxy_go.Prelude.{
  length, get_elem?, set, All, All-append, All-get_elem?, All-set, All-imply, Text, nat_eq, text_eq,
  ℕ, zero, suc, ◌+◌, ◌%◌, ◌≡◌, refl, Bool, false, Option, some, List, [], ◌∷◌, ◌++◌, arith,
}
use proxy_go.Dict.{lookup, lookup-restrict}
use proxy_go.Config.Site.{Url}
use proxy_go.Metrics.{u64}
use proxy_go.Proxy.Request.{Request}
use proxy_go.Proxy.Router.Flight.{
  Shared, Stage, arrived, Tick, System, Move, arrive, go_on, replaced, reloaded, pruned, stopped,
  Runs, at_rest, onward, is_done, advance, reload_shared, new_system,
}
use proxy_go.Proxy.Router.Flight.Recording.{
  tally, total, tally-busy, IsPlaced, IsCounted, IsCounted-more, counted_step,
}

-- the requests that have come to an end with a record
abbrev pub finished : List (Request × Stage) → ℕ
finished [] = 0
finished (f ∷ fs) = tally f.1 + finished fs

finished-append :
    (fs : List (Request × Stage)) (f : Request × Stage)
    → finished (fs ++ f ∷ []) ≡ finished fs + tally f.1
finished-append [] f = omega arith
finished-append (g ∷ fs) f = omega (arith, finished-append fs f)

finished-set :
    (fs : List (Request × Stage)) (i : ℕ) (f g : Request × Stage)
    → get_elem? fs i ≡ some f
    → finished (set fs i g) + tally f.1 ≡ finished fs + tally g.1
finished-set [] i f g e = absurd (ground arith)
finished-set (h ∷ fs) zero f g e = let same : h ≡ f = cc in rw same (omega arith)
finished-set (h ∷ fs) (suc i) f g e = omega (arith, finished-set fs i f g e)

module _ (parse_url : Text → Option Url) (split_remote : Text → Option Text) where
  abbrev IsCountedFlight : Shared → Request × Stage → Type 0
  IsCountedFlight s f = IsCounted (length s.stats) f.1

  -- the counters and the requests agree, and each request has a place for its record
  record IsBalanced (s : System) : Type 0 where
    placed : IsPlaced s.shared
    counted : All (IsCountedFlight s.shared) s.flights
    balanced : total s.shared.stats % u64 ≡ finished s.flights % u64

  IsBalanced-go_on :
      (s : System) (t : Tick) (i : ℕ) (req : Request) (st : Stage)
      → get_elem? s.flights i ≡ some (req, st)
      → is_done st ≡ false
      → IsBalanced s
      → IsBalanced (record {
        shared = (advance split_remote t req st s.shared).1;
        flights = set s.flights i (req, (advance split_remote t req st s.shared).0);
      })
  IsBalanced-go_on s t i req st at busy o =
      let was = All-get_elem? (IsCountedFlight s.shared) s.flights i (req, st) o.counted at in
      let step = counted_step split_remote t req st s.shared busy o.placed was in
      let (st', s') = advance split_remote t req st s.shared in
      record {
        placed = step.placed;
        counted =
            All-set (IsCountedFlight s') s.flights i (req, st')
              (All-imply (IsCountedFlight s.shared) (IsCountedFlight s') s.flights
                (λ f. IsCounted-more (length s.shared.stats) (length s'.stats) f.1 step.more)
                o.counted)
              step.counted;
        balanced = omega (
          arith,
          step.tallied,
          o.balanced,
          tally-busy st busy,
          finished-set s.flights i (req, st) (req, st') at,
        );
      }

  IsBalanced-Move :
      {s s' : System} → Move parse_url split_remote s s' → IsBalanced s → IsBalanced s'
  IsBalanced-Move {s} (arrive req) o = record {
    placed = o.placed;
    counted =
        All-append (IsCountedFlight s.shared) s.flights ((req, arrived) ∷ []) o.counted (tt, tt);
    balanced = omega (arith, o.balanced, finished-append s.flights (req, arrived));
  }
  IsBalanced-Move {s} (go_on t i req st at busy) o = IsBalanced-go_on s t i req st at busy o
  IsBalanced-Move (replaced sites) o = record {
    placed = o.placed;
    counted = o.counted;
    balanced = o.balanced;
  }
  IsBalanced-Move (reloaded sites) o =
      unfold reload_shared in
      record { placed = o.placed; counted = o.counted; balanced = o.balanced }
  IsBalanced-Move {s} (pruned keep) o = record {
    placed = λ d q e. ground (arith, lookup-restrict keep d s.shared.sites, o.placed d q);
    counted = o.counted;
    balanced = o.balanced;
  }
  IsBalanced-Move stopped o = record {
    placed = o.placed;
    counted = o.counted;
    balanced = o.balanced;
  }

  IsBalanced-Runs :
      (trust : Bool) {s : System} → Runs parse_url split_remote (new_system trust) s → IsBalanced s
  unfolding lookup
  IsBalanced-Runs trust at_rest = record {
    placed = λ d q e. absurd (ground arith);
    counted = tt;
    balanced = refl;
  }
  IsBalanced-Runs trust (onward run move) = IsBalanced-Move move (IsBalanced-Runs trust run)

  -- Many requests at once, with reloads, prunes and a stop between their accesses: the counters of
  -- all the domains, also of those that a prune has dropped, add up to the number of the requests
  -- that have come to an end with an answer of an upstream or a refusal of the limiter, modulo 2 ^
  -- 64.
  pub total-Runs :
      {s : System} (trust : Bool)
      → Runs parse_url split_remote (new_system trust) s
      → total s.shared.stats % u64 ≡ finished s.flights % u64
  total-Runs trust run = (IsBalanced-Runs trust run).balanced
