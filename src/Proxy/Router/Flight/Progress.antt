-- ===== src/Proxy/Router/Flight/Progress.antt =====
-- Each access brings a request nearer to its end.
use proxy_go.Prelude.{
  Option-cases, get_elem?, Text, nat_eq, text_eq, ℕ, ◌≤◌, ◌<◌, ◌≡◌, inl, inr, false, Option, arith,
}
use proxy_go.Dict.{lookup}
use proxy_go.Config.Site.{Site}
use proxy_go.Config.Store.{lookup_host}
use proxy_go.Proxy.Request.{Request}
use proxy_go.Proxy.Router.{SiteRuntime}
use proxy_go.Proxy.Router.Flight.{
  Shared, Stage, arrived, admitted, routed, bound, granted, sent_out, answered, unlisted, counting,
  done, Tick, is_done, screen, take_token, pick_upstream, advance,
}
use proxy_go.Proxy.Router.Flight.Served.{advance-granted, advance-bound}

-- the accesses that a request has before it at most
abbrev pub ahead : Stage → ℕ
ahead arrived = 9
ahead admitted = 8
ahead (routed site) = 7
ahead (bound d p) = 6
ahead (granted d p) = 5
ahead (sent_out d p sent) = 4
ahead (answered d out sm) = 3
ahead (unlisted d out sm) = 2
ahead (counting q out sm) = 1
ahead (done out) = 0

module _ (split_remote : Text → Option Text) where
  ahead-screen : (req : Request) (site : Site) → ahead (screen req site) ≤ 7
  unfolding screen
  ahead-screen req site = ground arith

  ahead-take_token :
      (t : Tick) (req : Request) (d : Text) (p : ℕ) (rt : SiteRuntime) (s : Shared)
      → ahead (take_token split_remote t req d p rt s).0 ≤ 5
  unfolding take_token
  ahead-take_token t req d p rt s = ground arith

  -- each access lowers the number
  pub ahead-advance :
      (t : Tick) (req : Request) (st : Stage) (s : Shared)
      → is_done st ≡ false
      → ahead (advance split_remote t req st s).0 < ahead st
  unfolding advance
  ahead-advance t req arrived s busy = ground arith
  ahead-advance t req admitted s busy = elim (Option-cases (lookup_host s.store req.host)) [
    | inl missing ↦ rw (missing, advance) (omega arith)
    | inr (site, found) ↦ rw (found, advance) (omega (arith, ahead-screen req site))
  ]
  ahead-advance t req (routed site) s busy = ground arith
  ahead-advance t req (bound d p) s busy = elim (Option-cases (get_elem? s.heap p)) [
    | inl missing ↦ rw (missing, advance) (omega arith)
    | inr (rt, here) ↦
        rw (advance-bound split_remote t req d p rt s here)
          (omega (arith, ahead-take_token t req d p rt s))
  ]
  ahead-advance t req (granted d p) s busy = elim (Option-cases (get_elem? s.heap p)) [
    | inl missing ↦ rw (missing, advance) (omega arith)
    | inr (rt, here) ↦
        rw (advance-granted split_remote t req d p rt s here) (unfold pick_upstream in omega arith)
  ]
  ahead-advance t req (sent_out d p sent) s busy = omega arith
  ahead-advance t req (answered d out sm) s busy = elim (Option-cases (lookup d s.sites)) [
    | inl missing ↦ rw (missing, advance) (omega arith)
    | inr (q, found) ↦ rw (found, advance) (omega arith)
  ]
  ahead-advance t req (unlisted d out sm) s busy = omega arith
  ahead-advance t req (counting q out sm) s busy = omega arith
  ahead-advance t req (done out) s busy = absurd (ground arith)
