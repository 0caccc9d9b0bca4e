-- ===== src/Server/Deadline.antt =====
-- internal/server/server.go: how long the drain takes. The three shutdowns share one context, which is
-- over 30 seconds after the drain has begun. Times are milliseconds.
use Prim.Native.Nat.{max}
use proxy_go.Prelude.{nat_eq, text_eq, ℕ, ◌+◌, ◌≤◌, arith}
use proxy_go.Server.{Listener, http, https, admin}

abbrev pub drain_timeout : ℕ
drain_timeout = 30_000

-- `shutdown` gives the time at which `Shutdown` of a server returns, when it is called at a time with a
-- context that is over at another.
module _ (shutdown : Listener → ℕ → ℕ → ℕ) where
  unfoldable pub drain : ℕ → ℕ
  drain begun =
      let over = begun + drain_timeout in
      shutdown admin (shutdown https (shutdown http begun over) over) over

  -- If `Shutdown` returns no later than its context is over, or at once if that is so when it is called,
  -- the three of them take no more than 30 seconds in all.
  pub drain_bounds :
      (begun : ℕ)
      → ((l : Listener) (now over : ℕ)
          → (now ≤ shutdown l now over) × (shutdown l now over ≤ max now over))
      → (begun ≤ drain begun) × (drain begun ≤ begun + drain_timeout)
  unfolding drain
  drain_bounds begun timely =
      let over = begun + drain_timeout in
      let a = shutdown http begun over in
      let b = shutdown https a over in
      omega (arith, timely http begun over, timely https a over, timely admin b over)
