-- ===== src/Server.antt =====
-- internal/server/server.go: the three listeners and the life of `Run`.
pub mod Draining
pub mod Deadline
pub mod Ending
mod Tests
use proxy_go.Prelude.{
  Text, nat_eq, text_eq, ℕ, ◌+◌, ◌-◌, ◌<◌, ◌≡◌, Bool, true, false, ◌||◌, Option, List, [], ◌∷◌,
}
use proxy_go.Text.{codes}
use proxy_go.Config.Site.{Site, Url}
use proxy_go.Config.Store.{replace}
use proxy_go.Config.Loader.{Global}
use proxy_go.Metrics.Registry.{prune}
use proxy_go.Proxy.Request.{Request}
use proxy_go.Proxy.Writer.{Call}
use proxy_go.Proxy.Router.{Router, Clock, stop, reload, serve_http}

pub data Listener : Type 0 where
  http https admin : Listener

-- The settings of an `http.Server`, with the timeouts in seconds; `protos` are those that are added
-- to the ones of certmagic.
pub record HttpServer : Type 0 where
  pub addr : Text
  pub read_header_timeout : ℕ
  pub idle_timeout : ℕ
  pub protos : List Text

unfoldable pub http_server : Listener → Global → HttpServer
http_server http g = record {
  addr = g.http_addr;
  read_header_timeout = 15;
  idle_timeout = 90;
  protos = [];
}
http_server https g = record {
  addr = g.https_addr;
  read_header_timeout = 15;
  idle_timeout = 90;
  protos = codes "h2" ∷ codes "http/1.1" ∷ [];
}
http_server admin g = record {
  addr = g.admin_addr;
  read_header_timeout = 10;
  idle_timeout = 60;
  protos = [];
}

-- Where `Run` is: at the select, with so many of the servers shut down, or back with a nil error.
pub data Phase : Type 0 where
  waiting returned : Phase
  draining : ℕ → Phase

-- `errors` counts what stands in the channel `errCh`; a listener is up while its goroutine runs.
pub record Life : Type 0 where
  pub phase : Phase
  pub http_up : Bool
  pub https_up : Bool
  pub admin_up : Bool
  pub errors : ℕ
  pub cancelled : Bool
  pub router : Router

abbrev pub launch : Router → Life
launch r = record {
  phase = waiting;
  http_up = true;
  https_up = true;
  admin_up = true;
  errors = 0;
  cancelled = false;
  router = r;
}

abbrev pub is_up : Listener → Life → Bool
is_up http s = s.http_up
is_up https s = s.https_up
is_up admin s = s.admin_up

abbrev pub take_down : Listener → Life → Life
take_down http s = record s { http_up = false }
take_down https s = record s { https_up = false }
take_down admin s = record s { admin_up = false }

-- the servers are shut down in this order
abbrev pub turn_of : Listener → ℕ
turn_of http = 0
turn_of https = 1
turn_of admin = 2

-- the capacity of `errCh`
abbrev pub capacity : ℕ
capacity = 3

-- how many of the servers have been shut down
abbrev pub shut_down : Phase → ℕ
shut_down waiting = 0
shut_down (draining n) = n
shut_down returned = 3

module _ (parse_url : Text → Option Url) (split_remote : Text → Option Text)
    (upstream : Request → List Call) where
  -- What can happen next: the context is cancelled; a listener fails, which goes into the
  -- channel if it has room; the listener of a server that is shut down returns; a request comes;
  -- a reload replaces the sites of the store, those of the router, and prunes the metrics; `Run`
  -- wakes up, with an error from the channel or without, and stops the router; the next server
  -- is shut down; the last goroutine has ended and `Run` returns.
  pub data Step : Life → Life → Type 0 where
    cancel : {s : Life} → Step s (record s { cancelled = true })
    fail :
        {s : Life} (l : Listener)
        → is_up l s ≡ true
        → s.errors < capacity
        → Step s (record (take_down l s) { errors = s.errors + 1 })
    close :
        {s : Life} (l : Listener)
        → is_up l s ≡ true
        → turn_of l < shut_down s.phase
        → Step s (take_down l s)
    request :
        {s : Life} (c : Clock) (req : Request)
        → Step s (record s { router = (serve_http split_remote upstream c req s.router).1 })
    replaced :
        {s : Life} (sites : List Site)
        → Step s (record s {
          router = record s.router { store = replace (λ q. q) s.router.store sites };
        })
    reloaded :
        {s : Life} (sites : List Site)
        → Step s (record s { router = reload parse_url sites s.router })
    pruned :
        {s : Life} (keep : Text → Bool)
        → Step s (record s { router = record s.router { registry = prune keep s.router.registry } })
    wake :
        {s : Life}
        → s.phase ≡ waiting
        → s.cancelled ≡ true
        → Step s (record s { phase = draining 0; router = stop s.router })
    wake_error :
        {s : Life}
        → s.phase ≡ waiting
        → 0 < s.errors
        → Step s (record s { phase = draining 0; errors = s.errors - 1; router = stop s.router })
    shutdown :
        {s : Life} (n : ℕ)
        → s.phase ≡ draining n
        → n < 3
        → Step s (record s { phase = draining (n + 1) })
    return :
        {s : Life}
        → s.phase ≡ draining 3
        → (s.http_up || s.https_up || s.admin_up) ≡ false
        → Step s (record s { phase = returned })
