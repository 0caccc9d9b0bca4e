-- ===== src/Server/Draining.antt =====
-- The router refuses requests before a server is shut down, and no listener waits to report.
use proxy_go.Prelude.{
  if◌then◌else◌, Text, nat_eq, text_eq, ℕ, ◌+◌, ◌≤◌, ◌≡◌, refl, ap, ◌∙◌, Bool, true, false, ◌||◌,
  Option, List, arith,
}
use proxy_go.Config.Site.{Url}
use proxy_go.Proxy.Request.{Request}
use proxy_go.Proxy.Writer.{Call}
use proxy_go.Proxy.Router.{Router, Clock, stop, reload, serve_http}
use proxy_go.Proxy.Router.Outcomes.{stopped-serve_http}
use proxy_go.Server.{
  http, https, admin, Phase, waiting, Life, Step, cancel, fail, close, request, replaced, reloaded,
  pruned, wake, wake_error, shutdown, return, launch, capacity, shut_down,
}

abbrev pub one_up : Bool → ℕ
one_up b = if b then 1 else 0

-- how many listeners are up
abbrev pub count_up : Life → ℕ
count_up s = one_up s.http_up + one_up s.https_up + one_up s.admin_up

abbrev pub is_waiting : Phase → Bool
is_waiting waiting = true
is_waiting _ = false

-- What holds all the time: there is room in the channel for the error of every listener that is up,
-- and the router refuses requests once `Run` has woken up.
pub record IsOrderly (s : Life) : Type 0 where
  pub room : s.errors + count_up s ≤ capacity
  pub refusing : (is_waiting s.phase || s.router.stopping) ≡ true
  pub in_turn : shut_down s.phase ≤ 3

module _ (parse_url : Text → Option Url) (split_remote : Text → Option Text)
    (upstream : Request → List Call) where
  pub data Reach (r : Router) : Life → Type 0 where
    launched : Reach r (launch r)
    next : {s s' : Life} → Reach r s → Step parse_url split_remote upstream s s' → Reach r s'

  stopping-request :
      (c : Clock) (req : Request) (r : Router) (w : Bool)
      → (w || r.stopping) ≡ true
      → (w || (serve_http split_remote upstream c req r).1.stopping) ≡ true
  stopping-request c req r true h = refl
  stopping-request c req r false h =
      ap (λ q. q.1.stopping) (stopped-serve_http split_remote upstream c req r h) ∙ h

  still :
      {s : Life}
      → s.errors + count_up s ≤ capacity
      → (is_waiting s.phase || s.router.stopping) ≡ true
      → shut_down s.phase ≤ 3
      → IsOrderly s
  still room refusing in_turn = record { room = room; refusing = refusing; in_turn = in_turn }

  IsOrderly-Step :
      {s s' : Life} → Step parse_url split_remote upstream s s' → IsOrderly s → IsOrderly s'
  IsOrderly-Step cancel o = still o.room o.refusing o.in_turn
  IsOrderly-Step (fail http up space) o = still (ground arith) o.refusing o.in_turn
  IsOrderly-Step (fail https up space) o = still (ground arith) o.refusing o.in_turn
  IsOrderly-Step (fail admin up space) o = still (ground arith) o.refusing o.in_turn
  IsOrderly-Step (close http up shut) o = still (ground arith) o.refusing o.in_turn
  IsOrderly-Step (close https up shut) o = still (ground arith) o.refusing o.in_turn
  IsOrderly-Step (close admin up shut) o = still (ground arith) o.refusing o.in_turn
  IsOrderly-Step (request c req) o = still o.room (stopping-request c req _ _ o.refusing) o.in_turn
  IsOrderly-Step (replaced sites) o = still o.room o.refusing o.in_turn
  IsOrderly-Step (reloaded sites) o = unfold reload in still o.room o.refusing o.in_turn
  IsOrderly-Step (pruned keep) o = still o.room o.refusing o.in_turn
  IsOrderly-Step (wake w why) o = unfold stop in still o.room refl (omega arith)
  IsOrderly-Step (wake_error w some_error) o =
      unfold stop in still (ground (arith, o.room)) refl (omega arith)
  IsOrderly-Step (shutdown n at more) o = still o.room (ground (arith, o.refusing)) (omega arith)
  IsOrderly-Step (return at down) o = still o.room (ground (arith, o.refusing)) (omega arith)

  -- In every state that `Run` comes to, the error channel has room for each listener that is up, so
  -- that none of them waits to report. From the moment that `Run` has woken up the router is stopped,
  -- whatever is reloaded meanwhile.
  pub Reach-IsOrderly : {r : Router} {s : Life} → Reach r s → IsOrderly s
  Reach-IsOrderly launched = still (omega arith) refl (omega arith)
  Reach-IsOrderly (next reached step) = IsOrderly-Step step (Reach-IsOrderly reached)
