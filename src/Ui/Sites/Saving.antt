-- ===== src/Ui/Sites/Saving.antt =====
-- What the handlers leave on the disk and in memory.
use proxy_go.Prelude.{
  Bool-cases, length, set, get_or-set, Text, nat_eq, text_eq, ℕ, ◌<◌, ◌≡◌, refl, sym, ap, ◌∙◌, ◌≢◌,
  inl, inr, Bool, not, Option, some, [], arith,
}
use proxy_go.Dict.{lookup}
use proxy_go.Config.Site.{Site}
use proxy_go.Config.Loader.{
  loaded, SaveError, Saved, saved, refused, Disk, tmp_path, file_name, load_site_file,
}
use proxy_go.Config.Loader.Saving.{
  lookup-save_site_refused, save_site_sound, load_site_file-save_site,
}
use proxy_go.Ui.Form.{blank_site, read_form}
use proxy_go.Ui.Types.{
  State, Server, UiRequest, Moment, redirect, save_error, deref, trigger_reload,
}
use proxy_go.Ui.Sites.{
  edited, is_new_site, save, after_save, create_or_update_site, after_toggle, toggle,
}

module _ {W : Type 0} (srv : Server W) where
  disk-trigger_reload : (st : State W) → (trigger_reload srv st).disk ≡ st.disk
  unfolding trigger_reload
  disk-trigger_reload st = ground arith

  -- the path of a site's file
  abbrev pub site_path : Site → Text
  site_path s = srv.join srv.sites_dir (file_name s)

  -- YAML reads what it wrote, but for the file's name, which is the last part of the path
  abbrev pub IsReadBack : Site → Type 0
  IsReadBack s =
      ((b : Text) → srv.marshal s ≡ some b → srv.unmarshal b ≡ some (record s { filename = [] }))
      × (srv.base (site_path s) ≡ file_name s)

  load_site_file-save :
      (t : Moment) (s : Site) (st : State W) (path : Text) (disk : Disk)
      → IsReadBack s
      → save srv t s st ≡ (saved path, disk)
      → load_site_file srv.parse_url srv.base srv.unmarshal (site_path s) disk
        ≡ loaded (record s { filename = file_name s })
  load_site_file-save t s st path disk (yaml, named) h =
      let stored = ap (λ q. q.0) h in
      let (_, where_to, _) =
        save_site_sound srv.parse_url srv.join srv.marshal t.faults srv.sites_dir path s st.disk
          stored in
      let read = load_site_file srv.parse_url srv.base srv.unmarshal in
      ap (λ q. read q disk) (sym where_to)
      ∙ ap (λ q. read path q.1) (sym h)
      ∙ load_site_file-save_site srv.parse_url srv.join srv.marshal srv.base srv.unmarshal t.faults
          srv.sites_dir path s st.disk yaml named stored

  after_save-redirect :
      (is_new : Bool) (s : Site) (t : Moment) (st : State W) (res : Saved × Disk) (code : ℕ)
      (target : Text)
      → (after_save srv is_new s t st res).0.page ≡ redirect code target
      → (path : Text) × (res ≡ (saved path, res.1))
        × ((after_save srv is_new s t st res).1.disk ≡ res.1)
  unfolding after_save
  after_save-redirect is_new s t st (refused e, disk) code target h = absurd (ground arith)
  after_save-redirect is_new s t st (saved path, disk) code target h =
      (path, refl, disk-trigger_reload (record st { disk = disk }))

  after_toggle-refused :
      (st : State W) (res : Saved × Disk) (e : SaveError)
      → (after_toggle srv st res).0.page ≡ save_error e
      → (res.0 ≡ refused e) × ((after_toggle srv st res).1 ≡ record st { disk = res.1 })
  unfolding after_toggle
  after_toggle-refused st (refused d, disk) e h = (ground arith, refl)
  after_toggle-refused st (saved path, disk) e h = absurd (ground arith)

  -- If a form is accepted, whoever reads the file of the site gets the site of the form, if YAML reads
  -- back what it wrote of it and the last part of the path is the file's name.
  pub load_site_file-create_or_update_site :
      (r : UiRequest) (t : Moment) (existing : Option ℕ) (st : State W) (code : ℕ) (target : Text)
      → IsReadBack (read_form r.form (edited st.heap existing))
      → (create_or_update_site srv r t existing st).0.page ≡ redirect code target
      → (let s = read_form r.form (edited st.heap existing) in
          load_site_file srv.parse_url srv.base srv.unmarshal
            (site_path s)
            (create_or_update_site srv r t existing st).1.disk
          ≡ loaded (record s { filename = file_name s }))
  unfolding create_or_update_site
  load_site_file-create_or_update_site r t existing st code target good h =
      elim (Bool-cases r.form_ok) [
        | inr bad ↦ absurd (ground arith)
        | inl fine ↦
            let s = read_form r.form (edited st.heap existing) in
            let (path, made, kept) =
              after_save-redirect (is_new_site existing) s t st (save srv t s st) code target
                (ground arith) in
            rw fine (
              ap (load_site_file srv.parse_url srv.base srv.unmarshal (site_path s)) kept
              ∙ load_site_file-save t s st path _ good made)
      ]

  -- A toggle whose save fails has changed the site in memory all the same, while the store's index and
  -- every file but the temporary one are as they were.
  pub toggle_refused :
      (t : Moment) (p : ℕ) (st : State W) (e : SaveError) (key : Text)
      → p < length st.heap
      → (toggle srv t (some p) st).0.page ≡ save_error e
      → key ≢ tmp_path (site_path (deref st.heap p))
      → (let st' = (toggle srv t (some p) st).1 in
          ((deref st'.heap p).enabled ≡ not (deref st.heap p).enabled)
          × (st'.store ≡ st.store)
          × (lookup key st'.disk ≡ lookup key st.disk))
  unfolding toggle
  toggle_refused t p st e key here h ne =
      let s = deref st.heap p in
      let s' = record s { enabled = not s.enabled } in
      let st' = record st { heap = set st.heap p s' } in
      let (failed_save, left) = after_toggle-refused st' (save srv t s' st') e h in
      (
        ap (λ q. (deref q.heap p).enabled) left
            ∙ ap (λ q. q.enabled) ((get_or-set st.heap p p s' blank_site here).0 refl),
        ap (λ q. q.store) left,
        ap (λ q. lookup key q.disk) left
            ∙ lookup-save_site_refused srv.parse_url srv.join srv.marshal t.faults srv.sites_dir key
                s' st.disk e failed_save ne,
      )
