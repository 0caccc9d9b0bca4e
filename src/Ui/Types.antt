-- ===== src/Ui/Types.antt =====
-- internal/ui/ui.go: `Server`, the requests and the pages of the admin interface, and `base`. A site is
-- a place in a heap, since the store and the handlers share it: `W` is the rest of the program.
use proxy_go.Prelude.{
  if◌then◌else◌, length, get_or, Text, nat_eq, text_eq, ℕ, suc, Bool, not, Option, none, List, [],
  ◌∷◌, ◌++◌,
}
use proxy_go.Config.Site.{Site, Url}
use proxy_go.Config.Store.{Store, snapshot, replace}
use proxy_go.Config.Loader.{Faults, SaveError, Entry, Disk, load_sites}
use proxy_go.Metrics.Registry.{Registry}
use proxy_go.Auth.{Crypto, Manager, Cookie}
use proxy_go.Acme.{Handshake, CertInfo}
use proxy_go.Ui.Format.{human_duration}
use proxy_go.Ui.Form.{Values, blank_site}
use proxy_go.Ui.Rows.{SiteRow}

pub record State (W : Type 0) : Type 0 where
  pub heap : List Site
  pub store : Store ℕ
  pub disk : Disk
  pub world : W

abbrev pub deref : List Site → ℕ → Site
deref heap p = get_or heap p blank_site

-- the parts of the program that the interface is given; `on_reload` is `Watcher.OnReload`
pub record Server (W : Type 0) : Type 0 where
  pub crypto : Crypto
  pub manager : Manager
  pub get_certificate : Option (Text → Handshake)
  pub registry : W → Registry
  pub sites_dir : Text
  pub version : Text
  pub has_callback : Bool
  pub on_reload : List Site → W → W
  pub parse_url : Text → Option Url
  pub join : Text → Text → Text
  pub base : Text → Text
  pub clean_path : Text → Text
  pub marshal : Site → Option Text
  pub unmarshal : Text → Option Site
  pub read_dir : Text → Disk → Option (List Entry)

-- `form` is what `FormValue` reads, and `query_next` the value of next in the query
pub record UiRequest : Type 0 where
  pub path : Text
  pub is_post : Bool
  pub form_ok : Bool
  pub form : Values
  pub query_next : Text
  pub cookie : Option Text
  pub tls : Bool

-- the clock in unix seconds, the seconds since the start, and what the disk does with a write
pub record Moment : Type 0 where
  pub now : ℕ
  pub uptime : ℕ
  pub faults : Faults

pub record BaseData : Type 0 where
  pub title : Text
  pub active : Text
  pub version : Text
  pub site_count : ℕ
  pub uptime : Text
  pub content_template : Text

-- the error rate is 100 * errors over requests, or nothing without requests, which is shown as 0
pub record Dashboard : Type 0 where
  pub active_sites : ℕ
  pub reqs_per_min : ℕ
  pub bytes_per_min : Text
  pub error_rate : Option (ℕ × ℕ)
  pub sites : List SiteRow

pub record SiteForm : Type 0 where
  pub is_new : Bool
  pub site : Site
  pub error : Option SaveError
  pub saved : Bool

pub data Content : Type 0 where
  dashboard_view : Dashboard → Content
  form_view : SiteForm → Content
  certs_view : List CertInfo → Content

pub data Page : Type 0 where
  redirect http_error : ℕ → Text → Page
  save_error : SaveError → Page
  login_view : Text → Text → Page
  layout : BaseData → Content → Page
  rows_view : List SiteRow → Page
  static_file : Text → Page

-- the page, and the cookie that it sets
pub record Answer : Type 0 where
  pub page : Page
  pub cookie : Option Cookie

abbrev pub plain : Page → Answer
plain p = record { page = p; cookie = none }

-- http.StatusSeeOther
abbrev pub see_other : Text → Answer
see_other target = plain (redirect 303 target)

-- the places of new sites, from the first free one on
abbrev pub places : ℕ → List Site → List ℕ
places n [] = []
places n (s ∷ sites) = n ∷ places (suc n) sites

module _ {W : Type 0} (srv : Server W) where
  unfoldable pub base_data : Text → Text → Text → Moment → State W → BaseData
  base_data title active template t st = record {
    title = title;
    active = active;
    version = srv.version;
    site_count = length (snapshot st.store);
    uptime = human_duration t.uptime;
    content_template = template;
  }

  -- the callback that cmd/jobcloud/main.go sets: the sites are read, and each is a new place
  unfoldable pub trigger_reload : State W → State W
  trigger_reload st =
      if not srv.has_callback
      then st
      else (let (sites, _) =
            load_sites srv.parse_url srv.base srv.unmarshal srv.join srv.sites_dir
              (srv.read_dir srv.sites_dir st.disk) st.disk in
          let heap = st.heap ++ sites in
          record st {
            heap = heap;
            store = replace (deref heap) st.store (places (length st.heap) sites);
            world = srv.on_reload sites st.world;
          })
