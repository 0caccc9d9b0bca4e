-- ===== src/Config/Watcher/Tests.antt =====
-- A file is written once, and 200 ms later the timer fires; a reload counts itself.
use proxy_go.Prelude.{
  nat_eq, text_eq, ℕ, suc, ◌+◌, ◌≤◌, ◌≡◌, refl, true, false, none, some, List, [], ◌∷◌, arith,
}
use proxy_go.Config.Watcher.{
  Op, tick, event, reload_and_go, Watching, debounce, is_change, turn, start, after_turn, take_turn,
}
use proxy_go.Config.Watcher.Debounce.{
  Taken, Run, begin, next, unsaved, reloads, times, IsArmed, Run-IsArmed, reload-Run,
}

abbrev written : Op
written = record { create = false; write = true; remove = false; rename = false; chmod = false }

abbrev one_write : List Taken
one_write = record { at = 20; what = event written } ∷ []

abbrev after_write : Watching ℕ
after_write = take_turn suc 20 25 (event written) (start suc 10 0)

after_write-Run : Run suc 0 one_write after_write
unfolding start
after_write-Run = next 20 25 (event written) (begin 10) refl (omega arith) (omega arith) tt

-- the tick that follows, with its reload
abbrev one_reload : List Taken
one_reload = record { at = 200_000_030; what = tick } ∷ one_write

abbrev after_tick : Watching ℕ
after_tick = take_turn suc 200_000_030 200_000_031 tick after_write

after_tick-Run : Run suc 0 one_reload after_tick
unfolding take_turn turn after_turn is_change start
after_tick-Run =
    next 200_000_030 200_000_031 tick after_write-Run refl (omega arith) (omega arith)
      (200_000_025, refl, omega arith)

Run-IsArmed_example :
    (after_tick.world ≡ times (reloads one_reload) suc 0)
    × IsArmed (unsaved one_reload) after_tick.loop
Run-IsArmed_example = Run-IsArmed suc 0 after_tick-Run

reload-Run_test :
    (turn 200_000_030 200_000_031 tick after_write.loop
      ≡ reload_and_go (record after_write.loop { timer = none }))
    × ((t : ℕ) × (unsaved one_write ≡ some t) × (t + debounce ≤ 200_000_030))
unfolding take_turn turn after_turn is_change start
reload-Run_test =
    reload-Run suc 0 200_000_030 200_000_031 after_write-Run (200_000_025, refl, omega arith)
