-- ===== src/Program/Overlap.antt =====
-- cmd/jobcloud/main.go and internal/config/watcher.go: reloads that go on at once. The watcher reloads
-- in a goroutine of its own and the admin interface in those of its requests, and no lock spans a
-- reload: the store, the router, the certificates and the metrics have one each. To load the sites is
-- one access, and so is each of the calls after it; the files may change between them.
use proxy_go.Prelude.{Text, nat_eq, text_eq, ℕ, zero, suc, ◌≡◌, refl, Option, none, List}
use proxy_go.Dict.{lookup}
use proxy_go.Config.Site.{Site, Url}
use proxy_go.Config.Loader.{Entry, Disk, load_sites}
use proxy_go.Config.Store.{new_store, lookup_host, replace}
use proxy_go.Metrics.Registry.{prune}
use proxy_go.Acme.{sync_domains, domains_from_sites}
use proxy_go.Program.{World, is_kept, on_reload, reload_world}
use proxy_go.Proxy.Router.Runtimes.{site_at, last_named, site_at-reload}
pub mod Loads
pub mod Apart
mod Tests
use proxy_go.Proxy.Router.{reload as reload_router}

-- How far a reload is: it has still to load the sites; it has loaded them; it has changed the store,
-- the router and the certificates with them; it is over.
pub data Reload : Type 0 where
  due over : Reload
  read stored routed synced : List Site → Reload

module _ {C : Type 0} (parse_url : Text → Option Url) (manage : List Text → C → C)
    (base : Text → Text) (unmarshal : Text → Option Site) (join : Text → Text → Text)
    (read_dir : Text → Disk → Option (List Entry)) (dir : Text) where
  -- what a load of the sites gives on a disk
  abbrev pub sites_on : Disk → List Site
  sites_on disk = (load_sites parse_url base unmarshal join dir (read_dir dir disk) disk).0

  -- the next call of a reload
  unfoldable pub advance_reload : Reload → World C → Reload × World C
  advance_reload due w = (read (sites_on w.disk), w)
  advance_reload (read sites) w = (
    stored sites,
    record w { router = record w.router { store = replace (λ s. s) w.router.store sites } },
  )
  advance_reload (stored sites) w =
      (routed sites, record w { router = reload_router parse_url sites w.router })
  advance_reload (routed sites) w =
      (synced sites, record w { certs = sync_domains manage (domains_from_sites sites) w.certs })
  advance_reload (synced sites) w = (
    over,
    record w { router = record w.router { registry = prune (is_kept sites) w.router.registry } },
  )
  advance_reload over w = (over, w)

  -- so many calls with nothing between
  unfoldable pub advance_times : ℕ → Reload → World C → Reload × World C
  unfolding advance_reload
  advance_times zero r w = (r, w)
  advance_times (suc n) r w = let (r', w') = advance_reload r w in advance_times n r' w'

  -- A reload with nothing between its five calls is `reload_world`.
  pub advance_times-reload_world :
      (w : World C)
      → advance_times 5 due w
        ≡ (over, reload_world parse_url manage base unmarshal join read_dir dir w)
  unfolding advance_times advance_reload reload_world on_reload
  advance_times-reload_world w = refl

  -- a reload that has changed the store when the files change and another one runs to its end
  abbrev pub overtaken : World C → Disk → Reload × World C
  overtaken w later =
      let (r, w1) = advance_times 2 due w in
      advance_times 3 r (
        reload_world parse_url manage base unmarshal join read_dir dir (record w1 { disk = later }))

  -- If a reload has changed the store when the files change and another reload runs to its end, and
  -- then the first one goes on to its own end, the store has the sites that are now in the files, and
  -- the runtimes are those of the sites that were there before.
  pub torn_lem :
      (w : World C) (later : Disk) (host d : Text)
      → (let (r, w') = overtaken w later in
          (r ≡ over)
          × (w'.disk ≡ later)
          × (lookup_host w'.router.store host
              ≡ lookup_host (replace (λ s. s) new_store (sites_on later)) host)
          × (site_at w'.router.heap (lookup d w'.router.runtimes)
              ≡ last_named parse_url d none (sites_on w.disk)))
  unfolding advance_times advance_reload reload_world on_reload replace reload_router
  torn_lem w later host d =
      (refl, refl, refl, site_at-reload parse_url (sites_on w.disk) w.router d)
