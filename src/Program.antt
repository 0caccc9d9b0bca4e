-- ===== src/Program.antt =====
-- cmd/jobcloud/main.go: the commands, the start of the server, and what a reload of the sites does to
-- the parts. The router's record holds the store and the registry, which the program shares.
pub mod Reloading
pub mod Interface
pub mod Main
pub mod Hashing
pub mod Sample
pub mod Starting
pub mod Overlap
mod Tests
use proxy_go.Prelude.{
  if◌then◌else◌, is_empty, ◌==◌, Text, nat_eq, text_eq, ℕ, Bool, true, false, ◌||◌, Option, none,
  some, List, [], ◌∷◌,
}
use proxy_go.Dict.{Dict, lookup, insert}
use proxy_go.Text.{codes}
use proxy_go.Config.Site.{Site, Url, all_domains}
use proxy_go.Config.Loader.{
  Global, LoadError, Loaded, loaded, failed, Entry, Disk, load_global, load_sites,
}
use proxy_go.Config.Store.{new_store, replace}
use proxy_go.Metrics.Registry.{new_registry, prune}
use proxy_go.Proxy.Router.{Router, new_router, reload}
use proxy_go.Auth.{Manager, AuthError, Result, ok, err, KeyFile, new_manager}
use proxy_go.Acme.{
  Manager as AcmeManager, new_manager as new_acme, sync_domains, domains_from_sites,
}

-- What the command line asks for; `usage` goes with the exit code 2.
pub data Command : Type 0 where
  serve hash : List Text → Command
  print_version usage : Command

unfoldable pub command : List Text → Command
command [] = usage
command (name ∷ args) =
    if name == codes "serve"
    then serve args
    else if name == codes "hash"
    then hash args
    else if name == codes "version" || name == codes "--version" || name == codes "-v"
    then print_version
    else usage

-- The exit code and the output of `cmdHash`; `bcrypt` hashes a password, or fails.
unfoldable pub cmd_hash : (Text → Option Text) → List Text → ℕ × Text
cmd_hash bcrypt (pw ∷ []) =
    if is_empty pw
    then (2, codes "usage: jobcloud hash <plaintext-password>")
    else elim (bcrypt pw) [ none ↦ (1, codes "hash:") | some h ↦ (0, h) ]
cmd_hash bcrypt _ = (2, codes "usage: jobcloud hash <plaintext-password>")

pub data Level : Type 0 where
  debug info warn error : Level

unfoldable pub log_level : Text → Level
log_level level =
    if level == codes "debug"
    then debug
    else if level == codes "warn"
    then warn
    else if level == codes "error"
    then error
    else info

-- The map of the domains to keep: of each enabled site its names, and its domain once more.
keep_names : List Text → Dict Text Bool → Dict Text Bool
keep_names [] keep = keep
keep_names (d ∷ ds) keep = keep_names ds (insert d true keep)

keep_sites : List Site → Dict Text Bool → Dict Text Bool
unfolding keep_names
keep_sites [] keep = keep
keep_sites (s ∷ sites) keep =
    keep_sites sites
      (if s.enabled then insert s.domain true (keep_names (all_domains s) keep) else keep)

-- a domain that is missing from the map is not kept
unfoldable pub is_kept : List Site → Text → Bool
unfolding keep_sites
is_kept sites d = elim (lookup d (keep_sites sites [])) [ none ↦ false | some b ↦ b ]

-- The parts that a reload changes, and the disk that it reads. `C` is certmagic's state.
pub record World (C : Type 0) : Type 0 where
  pub router : Router
  pub disk : Disk
  pub certs : C

module _ {C : Type 0} (parse_url : Text → Option Url) (manage : List Text → C → C) where
  unfoldable pub on_reload : List Site → World C → World C
  on_reload sites w =
      let r = reload parse_url sites w.router in
      record w {
        router = record r { registry = prune (is_kept sites) r.registry };
        certs = sync_domains manage (domains_from_sites sites) w.certs;
      }

  -- `read_dir` lists a directory of the disk, or fails
  module _ (base : Text → Text) (unmarshal : Text → Option Site) (join : Text → Text → Text)
      (read_dir : Text → Disk → Option (List Entry)) where
    -- `Watcher.reload`, whose errors are logged, and the reload that the admin interface calls
    unfoldable pub reload_world : Text → World C → World C
    unfolding on_reload
    reload_world sites_dir w =
        let (sites, errs) =
          load_sites parse_url base unmarshal join sites_dir (read_dir sites_dir w.disk) w.disk in
        on_reload sites
          (record w { router = record w.router { store = replace (λ s. s) w.router.store sites } })

pub data StartError : Type 0 where
  mkdir_failed : Text → StartError
  bad_global : LoadError → StartError
  bad_auth : AuthError → StartError
  no_acme_email : StartError

pub record Started : Type 0 where
  pub global : Global
  pub manager : Manager
  pub acme : AcmeManager
  pub router : Router

-- The values of the flags; an empty directory is not given.
pub record Flags : Type 0 where
  pub data_dir : Text
  pub sites_dir : Text
  pub certs_dir : Text

pub data Setup (A : Type 0) : Type 0 where
  ready : A → Setup A
  fatal : StartError → Setup A

-- the first directory that cannot be made
make_dirs : (Text → Bool) → List Text → Option Text
make_dirs mkdir [] = none
make_dirs mkdir (d ∷ ds) = if mkdir d then make_dirs mkdir ds else some d

-- the end of the start: the managers, then the store, the registry and the router
with_manager : (Text → Text) → Text → Global → Result Manager → Setup Started
with_manager clean certs_dir g (err e) = fatal (bad_auth e)
with_manager clean certs_dir g (ok m) =
    elim (new_acme clean certs_dir g.acme_email g.acme_directory) [
      | none ↦ fatal no_acme_email
      | some a ↦ ready (record {
        global = g;
        manager = m;
        acme = a;
        router = new_router new_store new_registry g.trust_forwarded_headers;
      })
    ]

with_global : (Text → Text) → Text → KeyFile → Loaded Global → Setup Started
unfolding with_manager
with_global clean certs_dir key (failed e) = fatal (bad_global e)
with_global clean certs_dir key (loaded g) =
    with_manager clean certs_dir g (new_manager g.admins g.session_secret key)

-- the directory of a flag, or the default below the data directory
or_below : (Text → Text → Text) → Text → Text → Text → Text
or_below join data_dir name dir = if is_empty dir then join data_dir name else dir

sites_dir_of : (Text → Text → Text) → Flags → Text
unfolding or_below
sites_dir_of join f = or_below join f.data_dir (codes "sites") f.sites_dir

certs_dir_of : (Text → Text → Text) → Flags → Text
unfolding or_below
certs_dir_of join f = or_below join f.data_dir (codes "certs") f.certs_dir

module _ (join : Text → Text → Text) (clean : Text → Text) (mkdir : Text → Bool)
    (unmarshal : Text → Option Global) where
  -- `cmdServe` up to the watcher and the listeners; `key` stands for the file secret.key
  unfoldable pub cmd_serve : Flags → KeyFile → Disk → Setup Started
  unfolding make_dirs with_global sites_dir_of certs_dir_of
  cmd_serve f key disk =
      elim (make_dirs mkdir (f.data_dir ∷ sites_dir_of join f ∷ certs_dir_of join f ∷ [])) [
        | some d ↦ fatal (mkdir_failed d)
        | none ↦
            with_global clean (certs_dir_of join f) key
              (load_global unmarshal (join f.data_dir (codes "config.yml")) disk)
      ]
