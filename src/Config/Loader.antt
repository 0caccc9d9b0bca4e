-- ===== src/Config/Loader.antt =====
-- internal/config/config.go: the files of the configuration. A disk holds the files by their path;
-- the paths' joining and YAML are parameters.
pub mod Saving
pub mod Loading
mod Tests
use proxy_go.Prelude.{
  if◌then◌else◌, is_empty, contains, ◌==◌, Text, nat_eq, text_eq, Bool, true, false, not, ◌&&◌,
  ◌||◌, Option, none, some, List, [], ◌∷◌, ◌++◌,
}
use proxy_go.Dict.{Dict, lookup, insert, restrict}
use proxy_go.Text.{codes, has_suffix}
use proxy_go.Sort.{text_le, sort_by}
use proxy_go.Config.Site.{Site, Url, SiteError, validate, sanitize_filename}
use proxy_go.Auth.{Admin}

pub record Global : Type 0 where
  pub admin_addr : Text
  pub http_addr : Text
  pub https_addr : Text
  pub acme_email : Text
  pub acme_directory : Text
  pub admins : List Admin
  pub session_secret : Text
  pub trust_forwarded_headers : Bool

unfoldable pub or_default : Text → Text → Text
or_default s d = if is_empty s then d else s

unfoldable pub apply_defaults : Global → Global
unfolding or_default
apply_defaults g = record g {
  admin_addr = or_default g.admin_addr (codes "127.0.0.1:8090");
  http_addr = or_default g.http_addr (codes ":80");
  https_addr = or_default g.https_addr (codes ":443");
}

abbrev pub Disk : Type 0
Disk = Dict Text Text

-- what the operating system does with a write and a rename, and what a failed write leaves
pub record Faults : Type 0 where
  pub write_ok : Bool
  pub left : Text
  pub rename_ok : Bool

pub data LoadError : Type 0 where
  read_failed yaml_failed : LoadError
  bad_site : SiteError → LoadError

pub data Loaded (A : Type 0) : Type 0 where
  loaded : A → Loaded A
  failed : LoadError → Loaded A

pub data SaveError : Type 0 where
  invalid_site : SiteError → SaveError
  marshal_failed write_failed rename_failed : SaveError

pub data Saved : Type 0 where
  saved : Text → Saved
  refused : SaveError → Saved

-- an entry of the directory, as `ReadDir` lists it
pub record Entry : Type 0 where
  pub name : Text
  pub is_dir : Bool

abbrev pub tmp_path : Text → Text
tmp_path path = path ++ codes ".tmp"

abbrev pub remove : Text → Disk → Disk
remove path disk = restrict (λ k. not (k == path)) disk

-- the name of a site's file
abbrev pub file_name : Site → Text
file_name s = if is_empty s.filename then sanitize_filename s.domain ++ codes ".yml" else s.filename

abbrev pub by_domain : Site → Site → Bool
by_domain a b = text_le a.domain b.domain

pub is_site_file : Entry → Bool
is_site_file e =
    not e.is_dir && (has_suffix e.name (codes ".yml") || has_suffix e.name (codes ".yaml"))

write_and_rename : Faults → Text → Text → Disk → Saved × Disk
write_and_rename f path b disk =
    if not f.write_ok
    then (refused write_failed, insert (tmp_path path) f.left disk)
    else if not f.rename_ok
    then (refused rename_failed, insert (tmp_path path) b disk)
    else (saved path, insert path b (remove (tmp_path path) (insert (tmp_path path) b disk)))

unfoldable pub load_global : (Text → Option Global) → Text → Disk → Loaded Global
unfolding apply_defaults
load_global unmarshal path disk = elim (lookup path disk) [
  | none ↦ failed read_failed
  | some b ↦ elim (unmarshal b) [ none ↦ failed yaml_failed | some g ↦ loaded (apply_defaults g) ]
]

module _ (parse_url : Text → Option Url) (join : Text → Text → Text)
    (marshal : Site → Option Text) where
  unfoldable pub save_site : Faults → Text → Site → Disk → Saved × Disk
  unfolding write_and_rename
  save_site f dir s disk = elim (validate parse_url s) [
    | some e ↦ (refused (invalid_site e), disk)
    | none ↦ elim (marshal s) [
      | none ↦ (refused marshal_failed, disk)
      | some b ↦ write_and_rename f (join dir (file_name s)) b disk
    ]
  ]

-- `base` is `filepath.Base`
module _ (parse_url : Text → Option Url) (base : Text → Text) (unmarshal : Text → Option Site) where
  -- the check of a site that was read, with its file's name
  checked : Site → Loaded Site
  checked s = elim (validate parse_url s) [ some e ↦ failed (bad_site e) | none ↦ loaded s ]

  parsed : Text → Option Site → Loaded Site
  unfolding checked
  parsed path none = failed yaml_failed
  parsed path (some s) = checked (record s { filename = base path })

  unfoldable pub load_site_file : Text → Disk → Loaded Site
  unfolding parsed
  load_site_file path disk = elim (lookup path disk) [
    | none ↦ failed read_failed
    | some b ↦ parsed path (unmarshal b)
  ]

  module _ (join : Text → Text → Text) where
    add_loaded :
        Text
        → Loaded Site
        → List Site × List (Text × LoadError)
        → List Site × List (Text × LoadError)
    add_loaded name (loaded s) (sites, errs) = (s ∷ sites, errs)
    add_loaded name (failed e) (sites, errs) = (sites, (name, e) ∷ errs)

    -- the loop over the entries
    load_entries : Text → List Entry → Disk → List Site × List (Text × LoadError)
    unfolding is_site_file load_site_file add_loaded
    load_entries dir [] disk = ([], [])
    load_entries dir (e ∷ es) disk =
        let rest = load_entries dir es disk in
        if is_site_file e
        then add_loaded e.name (load_site_file (join dir e.name) disk) rest
        else rest

    -- The directory's entries are in order of their names; a directory that cannot be read is `none`.
    unfoldable pub load_sites :
        Text → Option (List Entry) → Disk → List Site × List (Text × LoadError)
    unfolding load_entries
    load_sites dir none disk = ([], (dir, read_failed) ∷ [])
    load_sites dir (some es) disk =
        let (sites, errs) = load_entries dir es disk in (sort_by by_domain sites, errs)

module _ (join : Text → Text → Text) where
  -- `false` is an error: a name that could leave the directory, or a file that is not there
  unfoldable pub delete_site : Text → Text → Disk → Bool × Disk
  delete_site dir filename disk =
      if is_empty filename || contains filename b'/' || contains filename 92
      then (false, disk)
      else elim (lookup (join dir filename) disk) [
        | none ↦ (false, disk)
        | some _ ↦ (true, remove (join dir filename) disk)
      ]
