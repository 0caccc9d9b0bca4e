-- ===== src/Ui/Sites.antt =====
-- internal/ui/ui.go: the handlers of the dashboard, of the sites and of the certificates.
pub mod Methods
pub mod Saving
mod Tests
use proxy_go.Prelude.{
  ltb, if◌then◌else◌, is_empty, set, drop, contains, ◌==◌, Text, nat_eq, text_eq, ℕ, ◌*◌, Bool,
  true, false, not, ◌||◌, Option, none, some, List, [], ◌∷◌, ◌++◌, map,
}
use proxy_go.Text.{codes, has_prefix, contains_text, split_n}
use proxy_go.Config.Site.{Site}
use proxy_go.Config.Store.{snapshot, domains}
use proxy_go.Config.Loader.{SaveError, Saved, saved, refused, Disk, save_site, delete_site}
use proxy_go.Metrics.Registry.{snapshot_all}
use proxy_go.Acme.{CertInfo, list_certs}
use proxy_go.Ui.Format.{human_bytes}
use proxy_go.Ui.Form.{blank_site, new_form_site, read_form}
use proxy_go.Ui.Rows.{Rows, build_site_rows}
use proxy_go.Ui.Types.{
  State, Server, UiRequest, Moment, dashboard_view, form_view, certs_view, http_error, save_error,
  layout, rows_view, Answer, deref, plain, see_other, base_data, trigger_reload,
}

-- the first place of the list whose site has the file name
find_site : List Site → Text → List ℕ → Option ℕ
find_site heap filename [] = none
find_site heap filename (p ∷ ps) =
    let rest = find_site heap filename ps in
    if (deref heap p).filename == filename then some p else rest

-- <file>[/<action>], after the prefix /sites/
pub item_path : Text → Text
item_path path = if has_prefix path (codes "/sites/") then drop 7 path else path

bad_filename : Text → Bool
bad_filename f = contains f b'/' || contains f 92 || contains_text f (codes "..")

abbrev first_part : List Text → Text
first_part [] = []
first_part (f ∷ parts) = f

-- the site that a form is read over: the zero value, or a copy of the site that is edited
abbrev pub edited : List Site → Option ℕ → Site
edited heap none = blank_site
edited heap (some p) = deref heap p

abbrev is_new_site : Option ℕ → Bool
is_new_site none = true
is_new_site (some p) = false

abbrev pub not_found : Answer
not_found = plain (http_error 404 (codes "not found"))

abbrev pub no_page : Answer
no_page = plain (http_error 404 (codes "404 page not found"))

module _ {W : Type 0} (srv : Server W) where
  all_rows : Moment → State W → Rows
  all_rows t st =
      build_site_rows (map (deref st.heap) (snapshot st.store))
        (snapshot_all t.now (srv.registry st.world))

  unfoldable pub handle_dashboard : UiRequest → Moment → State W → Answer
  unfolding all_rows
  handle_dashboard r t st =
      if not (r.path == codes "/")
      then no_page
      else (let rows = all_rows t st in
          plain (
            layout (base_data srv (codes "Dashboard") (codes "dashboard") (codes "dashboard") t st)
              (dashboard_view (record {
                active_sites = rows.active;
                reqs_per_min = rows.total_reqs;
                bytes_per_min = human_bytes rows.total_bytes;
                error_rate =
                    if ltb 0 rows.total_reqs
                    then some (rows.total_errs * 100, rows.total_reqs)
                    else none;
                sites = rows.rows;
              }))))

  unfoldable pub handle_site_rows_partial : Moment → State W → Answer
  unfolding all_rows
  handle_site_rows_partial t st = plain (rows_view (all_rows t st).rows)

  form_page : Text → Bool → Site → Option SaveError → Moment → State W → Answer
  form_page title is_new s e t st = plain (
      layout (base_data srv title (codes "sites") (codes "site-form") t st)
        (form_view (record { is_new = is_new; site = s; error = e; saved = false })))

  unfoldable pub handle_site_new : Moment → State W → Answer
  unfolding form_page
  handle_site_new t st = form_page (codes "Add site") true new_form_site none t st

  unfoldable pub handle_certs : Moment → State W → Answer
  handle_certs t st =
      let infos : List CertInfo = elim srv.get_certificate [
        | none ↦ []
        | some get ↦ list_certs get (domains st.store)
      ] in
      plain (
        layout (base_data srv (codes "Certificates") (codes "certs") (codes "certs") t st)
          (certs_view infos))

  -- `SaveSite` with the server's parameters
  abbrev pub save : Moment → Site → State W → Saved × Disk
  save t s st = save_site srv.parse_url srv.join srv.marshal t.faults srv.sites_dir s st.disk

  -- what follows the save of a form
  after_save : Bool → Site → Moment → State W → Saved × Disk → Answer × State W
  unfolding form_page
  after_save is_new s t st (refused e, disk) =
      let st' = record st { disk = disk } in
      (form_page (codes "Add site") is_new s (some e) t st', st')
  after_save is_new s t st (saved path, disk) = (
    see_other (codes "/sites/" ++ s.filename ++ codes "?saved=1"),
    trigger_reload srv (record st { disk = disk }),
  )

  -- `none` is a new site, and a place is the site that is edited, of which a copy is changed
  unfoldable pub create_or_update_site : UiRequest → Moment → Option ℕ → State W → Answer × State W
  unfolding after_save
  create_or_update_site r t existing st =
      let s = read_form r.form (edited st.heap existing) in
      if not r.form_ok
      then (plain (http_error 400 (codes "bad form")), st)
      else after_save (is_new_site existing) s t st (save t s st)

  unfoldable pub handle_sites_list : UiRequest → Moment → State W → Answer × State W
  handle_sites_list r t st =
      if r.is_post then create_or_update_site r t none st else (see_other (codes "/"), st)

  -- what follows the save of a toggled site
  after_toggle : State W → Saved × Disk → Answer × State W
  after_toggle st (refused e, disk) = (plain (save_error e), record st { disk = disk })
  after_toggle st (saved path, disk) =
      (see_other (codes "/"), trigger_reload srv (record st { disk = disk }))

  -- the shared site is changed first, and then saved
  unfoldable pub toggle : Moment → Option ℕ → State W → Answer × State W
  unfolding after_toggle
  toggle t none st = (not_found, st)
  toggle t (some p) st =
      let s = deref st.heap p in
      let s' = record s { enabled = not s.enabled } in
      let st' = record st { heap = set st.heap p s' } in after_toggle st' (save t s' st')

  unfoldable pub delete : UiRequest → Text → State W → Answer × State W
  delete r filename st =
      if not r.is_post
      then (plain (http_error 405 (codes "method not allowed")), st)
      else (let (done, disk) = delete_site srv.join srv.sites_dir filename st.disk in
          if done
          then (see_other (codes "/"), trigger_reload srv (record st { disk = disk }))
          else (plain (http_error 500 (codes "delete")), record st { disk = disk }))

  -- a site by itself: its form, or the form that was sent
  unfoldable pub item : UiRequest → Moment → Option ℕ → State W → Answer × State W
  unfolding form_page
  item r t none st = (if r.is_post then not_found else no_page, st)
  item r t (some p) st =
      let s = deref st.heap p in
      if r.is_post
      then create_or_update_site r t (some p) st
      else (form_page s.domain false s none t st, st)

  -- the action is the second part, if there is one; an unknown action is the site by itself
  dispatch : UiRequest → Moment → Text → Option ℕ → List Text → State W → Answer × State W
  unfolding toggle delete item
  dispatch r t filename site (f ∷ action ∷ []) st =
      if action == codes "toggle"
      then toggle t site st
      else if action == codes "delete"
      then delete r filename st
      else item r t site st
  dispatch r t filename site _ st = item r t site st

  unfoldable pub handle_sites_item : UiRequest → Moment → State W → Answer × State W
  unfolding dispatch find_site bad_filename item_path
  handle_sites_item r t st =
      let path = item_path r.path in
      let parts = split_n path b'/' 2 in
      let filename = first_part parts in
      let site = find_site st.heap filename (snapshot st.store) in
      if is_empty path
      then (see_other (codes "/"), st)
      else if bad_filename filename
      then (plain (http_error 400 (codes "bad filename")), st)
      else dispatch r t filename site parts st
