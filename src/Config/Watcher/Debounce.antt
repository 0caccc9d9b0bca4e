-- ===== src/Config/Watcher/Debounce.antt =====
-- The runs of the watcher: no change is lost, and a reload comes when 200 ms have been quiet.
use proxy_go.Prelude.{
  if◌then◌else◌, Bool-cases, set, nat_eq, text_eq, ℕ, zero, suc, ◌+◌, ◌≤◌, ◌≡◌, refl, ap, ◌∙◌, inl,
  inr, true, Option, none, some, List, [], ◌∷◌, arith,
}
use proxy_go.Config.Watcher.{
  Loop, Ready, done, events_closed, watch_error, errors_closed, tick, event, reload_and_go,
  Watching, debounce, is_change, turn, start, after_turn, take_turn,
}

-- a tick is ready once the timer is due
abbrev pub IsReady : ℕ → Ready → Loop → Type 0
IsReady now tick l = (due : ℕ) × (l.timer ≡ some due) × (due ≤ now)
IsReady now _ l = Unit

-- a turn that was taken, with the time that it read
pub record Taken : Type 0 where
  pub at : ℕ
  pub what : Ready

-- the states that `Run` comes to, with the turns so far, newest first
pub data Run {W : Type 0} (reload : W → W) (w : W) : List Taken → Watching W → Type 0 where
  begin : (now : ℕ) → Run reload w [] (start reload now w)
  next :
      {h : List Taken} {s : Watching W} (now later : ℕ) (r : Ready)
      → Run reload w h s
      → s.running ≡ true
      → s.clock ≤ now
      → now ≤ later
      → IsReady now r s.loop
      → Run reload w (record { at = now; what = r } ∷ h) (take_turn reload now later r s)

abbrev pub unsaved_after : ℕ → Ready → Option ℕ → Option ℕ
unsaved_after now tick u = none
unsaved_after now (event o) u = if is_change o then some now else u
unsaved_after now _ u = u

-- the time of the last change that no tick has followed
abbrev pub unsaved : List Taken → Option ℕ
unsaved [] = none
unsaved (t ∷ h) = unsaved_after t.at t.what (unsaved h)

-- one more reload for a tick
abbrev pub reloads_of : Ready → ℕ → ℕ
reloads_of tick n = suc n
reloads_of _ n = n

-- how many reloads there have been, with the initial one
abbrev pub reloads : List Taken → ℕ
reloads [] = 1
reloads (t ∷ h) = reloads_of t.what (reloads h)

abbrev pub times {ℓ} : {A : Type ℓ} → ℕ → (A → A) → A → A
times zero f a = a
times (suc n) f a = f (times n f a)

-- The timer is set exactly if a change waits, and is not due before it has been quiet for 200 ms.
abbrev pub IsArmed : Option ℕ → Loop → Type 0
IsArmed none l = l.timer ≡ none
IsArmed (some t) l =
    (l.armed_time ≡ t + debounce) × (due : ℕ) × (l.timer ≡ some due) × (t + debounce ≤ due)

-- A tick comes only for a change that waits, and never before its time: it is a reload.
turn-tick :
    (now later : ℕ) (l : Loop) (u : Option ℕ)
    → IsArmed u l
    → IsReady now tick l
    → (turn now later tick l ≡ reload_and_go (record l { timer = none }))
      × ((t : ℕ) × (u ≡ some t) × (t + debounce ≤ now))
unfolding turn
turn-tick now later l none off (due, set, past) = absurd (ground arith)
turn-tick now later l (some t) (armed, due, set, late) (due', set', past) =
    let same : due ≡ due' = ground arith in (ground arith, (t, refl, omega arith))

module _ {W : Type 0} (reload : W → W) where
  IsArmed-take_turn :
      (now later : ℕ) (r : Ready) (s : Watching W) (u : Option ℕ)
      → now ≤ later
      → IsArmed u s.loop
      → IsReady now r s.loop
      → IsArmed (unsaved_after now r u) (take_turn reload now later r s).loop
  unfolding take_turn after_turn turn
  IsArmed-take_turn now later done s u le a ready = a
  IsArmed-take_turn now later events_closed s u le a ready = a
  IsArmed-take_turn now later errors_closed s u le a ready = a
  IsArmed-take_turn now later watch_error s u le a ready = a
  IsArmed-take_turn now later (event o) s u le a ready = elim (Bool-cases (is_change o)) [
    | inl change ↦ rw change (refl, later + debounce, refl, omega arith)
    | inr other ↦ rw other a
  ]
  IsArmed-take_turn now later tick s u le a ready =
      let (fired, _) = turn-tick now later s.loop u a ready in
      ap (λ t. (after_turn reload t later s.world s.loop).loop.timer) fired

  world-take_turn :
      (now later : ℕ) (r : Ready) (s : Watching W) (u : Option ℕ) (n : ℕ) (w : W)
      → IsArmed u s.loop
      → IsReady now r s.loop
      → s.world ≡ times n reload w
      → (take_turn reload now later r s).world ≡ times (reloads_of r n) reload w
  unfolding take_turn after_turn turn
  world-take_turn now later done s u n w a ready e = e
  world-take_turn now later events_closed s u n w a ready e = e
  world-take_turn now later errors_closed s u n w a ready e = e
  world-take_turn now later watch_error s u n w a ready e = e
  world-take_turn now later (event o) s u n w a ready e = ground (arith, e)
  world-take_turn now later tick s u n w a ready e =
      let (fired, _) = turn-tick now later s.loop u a ready in
      ap (λ t. (after_turn reload t later s.world s.loop).world) fired ∙ ap reload e

  module _ (w : W) where
    IsArmed-Run : {h : List Taken} {s : Watching W} → Run reload w h s → IsArmed (unsaved h) s.loop
    IsArmed-Run (begin now) = unfold start in refl
    IsArmed-Run (next now later r run on past le ready) =
        IsArmed-take_turn now later r _ _ le (IsArmed-Run run) ready

    -- The world has been reloaded once at the start and once for each tick of the timer, and not for
    -- the changes themselves.
    pub world-Run :
        {h : List Taken} {s : Watching W} → Run reload w h s → s.world ≡ times (reloads h) reload w
    world-Run (begin now) = unfold start in refl
    world-Run (next now later r run on past le ready) =
        world-take_turn now later r _ _ _ w (IsArmed-Run run) ready (world-Run run)

    -- The watcher has reloaded the world once at the start and once for each tick of its timer so far,
    -- and not for the changes themselves. A change that no tick has followed has the timer set: it is
    -- due 200 ms after the last change or later. If no change waits, the timer is off.
    pub Run-IsArmed :
        {h : List Taken} {s : Watching W}
        → Run reload w h s
        → (s.world ≡ times (reloads h) reload w) × IsArmed (unsaved h) s.loop
    Run-IsArmed run = (world-Run run, IsArmed-Run run)

    -- Whenever the timer fires there is a reload, and the last change was 200 ms ago or more.
    pub reload-Run :
        {h : List Taken} {s : Watching W} (now later : ℕ)
        → Run reload w h s
        → IsReady now tick s.loop
        → (turn now later tick s.loop ≡ reload_and_go (record s.loop { timer = none }))
          × ((t : ℕ) × (unsaved h ≡ some t) × (t + debounce ≤ now))
    reload-Run now later run ready = turn-tick now later _ _ (IsArmed-Run run) ready
