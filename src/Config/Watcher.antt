-- ===== src/Config/Watcher.antt =====
-- internal/config/watcher.go: the loop of `Watcher.Run`, which debounces the changes of the
-- directory. `W` is what a reload reads and changes; time is in nanoseconds, on a clock that does
-- not run backwards.
pub mod Debounce
mod Tests
use proxy_go.Prelude.{
  ltb, if◌then◌else◌, nat_eq, text_eq, ℕ, ◌+◌, ◌-◌, Bool, true, false, not, ◌&&◌, ◌||◌, Option,
  none, some,
}

-- 200 ms
abbrev pub debounce : ℕ
debounce = 200_000_000

-- the variables of the loop: when the timer's channel is ready, if there is one, and `armedTime`
pub record Loop : Type 0 where
  pub timer : Option ℕ
  pub armed_time : ℕ

abbrev pub new_loop : Loop
new_loop = record { timer = none; armed_time = 0 }

-- The kinds of an event. One event may have several.
pub record Op : Type 0 where
  pub create : Bool
  pub write : Bool
  pub remove : Bool
  pub rename : Bool
  pub chmod : Bool

-- What a `select` finds ready.
pub data Ready : Type 0 where
  done events_closed watch_error errors_closed tick : Ready
  event : Op → Ready

-- What a turn of the loop does: it ends `Run`, or goes on with or without a reload.
pub data Turn : Type 0 where
  exit : Turn
  go : Loop → Turn
  reload_and_go : Loop → Turn

unfoldable pub is_change : Op → Bool
is_change o = o.write || o.create || o.rename || o.remove

-- A turn of the loop that reads the clock at `now` and sets its timer at `later`.
unfoldable pub turn : ℕ → ℕ → Ready → Loop → Turn
unfolding is_change
turn now later done l = exit
turn now later events_closed l = exit
turn now later errors_closed l = exit
turn now later watch_error l = go l
turn now later (event o) l =
    if not (is_change o)
    then go l
    else go (record { timer = some (later + debounce); armed_time = now + debounce })
turn now later tick l =
    if ltb now l.armed_time
    then go (record l { timer = some (later + (l.armed_time - later)) })
    else reload_and_go (record l { timer = none })

-- `Run` with its world; `running` is false after it has returned.
pub record Watching (W : Type 0) : Type 0 where
  pub loop : Loop
  pub world : W
  pub clock : ℕ
  pub running : Bool

-- the initial load comes before the loop
unfoldable pub start : {W : Type 0} → (W → W) → ℕ → W → Watching W
start reload now w = record { loop = new_loop; world = reload w; clock = now; running = true }

-- `Run` up to its loop: without a watcher on the directory it returns an error before it loads.
unfoldable pub begin_run : {W : Type 0} → Bool → Bool → (W → W) → ℕ → W → Option (Watching W)
unfolding start
begin_run made added reload now w = if made && added then some (start reload now w) else none

after_turn : {W : Type 0} → (W → W) → Turn → ℕ → W → Loop → Watching W
after_turn reload exit now w l = record { loop = l; world = w; clock = now; running = false }
after_turn reload (go l') now w l = record { loop = l'; world = w; clock = now; running = true }
after_turn reload (reload_and_go l') now w l = record {
  loop = l';
  world = reload w;
  clock = now;
  running = true;
}

unfoldable pub take_turn : {W : Type 0} → (W → W) → ℕ → ℕ → Ready → Watching W → Watching W
unfolding turn after_turn
take_turn reload now later r s = after_turn reload (turn now later r s.loop) later s.world s.loop
