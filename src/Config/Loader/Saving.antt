-- ===== src/Config/Loader/Saving.antt =====
-- What saving and deleting a site do to the disk.
use proxy_go.Prelude.{
  if◌then◌else◌, Option-cases, contains, ◌==◌, Text, nat_eq, text_eq, beq_refl, beq_ne, ◌≡◌, sym,
  ap, ◌∙◌, ◌≢◌, inl, inr, false, not, ◌&&◌, ◌||◌, Option, none, some, [], arith,
}
use proxy_go.Dict.{lookup, insert, lookup-insert, lookup-restrict}
use proxy_go.Config.Site.{Site, Url, validate}
use proxy_go.Config.Loader.{
  Faults, loaded, SaveError, saved, refused, Disk, tmp_path, remove, file_name, write_and_rename,
  save_site, checked, parsed, load_site_file, delete_site,
}

lookup-remove :
    (path key : Text) (disk : Disk)
    → lookup key (remove path disk) ≡ (if key == path then none else lookup key disk)
lookup-remove path key disk = ground (arith, lookup-restrict (λ k. not (k == path)) key disk)

-- only the file itself and the temporary one change
lookup-write_and_rename :
    (f : Faults) (path b key : Text) (disk : Disk)
    → key ≢ tmp_path path
    → lookup key (write_and_rename f path b disk).1
      ≡ (if f.write_ok && f.rename_ok && path == key then some b else lookup key disk)
unfolding write_and_rename
lookup-write_and_rename f path b key disk ne =
    let tmp = tmp_path path in
    let other : (tmp == key) ≡ false = beq_ne tmp key (λ e. ne (sym e)) in
    let other' : (key == tmp) ≡ false = beq_ne key tmp ne in
    ground (
      arith,
      other,
      other',
      lookup-insert tmp key f.left disk,
      lookup-insert tmp key b disk,
      lookup-remove tmp key (insert tmp b disk),
      lookup-insert path key b (remove tmp (insert tmp b disk)),
    )

write_and_rename_refused :
    (f : Faults) (path b : Text) (disk : Disk) (e : SaveError)
    → (write_and_rename f path b disk).0 ≡ refused e
    → (f.write_ok && f.rename_ok) ≡ false
unfolding write_and_rename
write_and_rename_refused f path b disk e h = ground arith

module _ (parse_url : Text → Option Url) (join : Text → Text → Text)
    (marshal : Site → Option Text) where
  -- A save that fails leaves every file as it was, but for the temporary one of the site.
  pub lookup-save_site_refused :
      (f : Faults) (dir key : Text) (s : Site) (disk : Disk) (e : SaveError)
      → (save_site parse_url join marshal f dir s disk).0 ≡ refused e
      → key ≢ tmp_path (join dir (file_name s))
      → lookup key (save_site parse_url join marshal f dir s disk).1 ≡ lookup key disk
  unfolding save_site
  lookup-save_site_refused f dir key s disk e h ne = elim (Option-cases (validate parse_url s)) [
    | inr (bad, e') ↦ ground arith
    | inl fine ↦ elim (Option-cases (marshal s)) [
      | inl none_made ↦ ground arith
      | inr (b, made) ↦
          let path = join dir (file_name s) in
          let tried : (write_and_rename f path b disk).0 ≡ refused e = ground arith in
          ground (
            arith,
            lookup-write_and_rename f path b key disk ne,
            write_and_rename_refused f path b disk e tried,
          )
    ]
  ]

  -- A save that succeeds wrote a valid site, and changed its file alone.
  pub save_site_sound :
      (f : Faults) (dir path : Text) (s : Site) (disk : Disk)
      → (save_site parse_url join marshal f dir s disk).0 ≡ saved path
      → (validate parse_url s ≡ none)
        × (path ≡ join dir (file_name s))
        × ((b : Text) × (marshal s ≡ some b)
            × (lookup path (save_site parse_url join marshal f dir s disk).1 ≡ some b))
  unfolding save_site write_and_rename
  save_site_sound f dir path s disk h = elim (Option-cases (validate parse_url s)) [
    | inr (bad, e') ↦ absurd (ground arith)
    | inl fine ↦ elim (Option-cases (marshal s)) [
      | inl none_made ↦ absurd (ground arith)
      | inr (b, made) ↦ (
        fine,
        ground arith,
        (
          b,
          made,
          ground (
            arith,
            lookup-insert path path b (remove (tmp_path path) (insert (tmp_path path) b disk)),
            beq_refl path,
          ),
        ),
      )
    ]
  ]

  -- A site that is saved is read back from its file as it was, under the name of the file, if
  -- YAML reads what it wrote, which leaves the file's name out, and the name is the last part of
  -- the path.
  pub load_site_file-save_site :
      (base : Text → Text) (unmarshal : Text → Option Site) (f : Faults) (dir path : Text)
      (s : Site) (disk : Disk)
      → ((b : Text) → marshal s ≡ some b → unmarshal b ≡ some (record s { filename = [] }))
      → base (join dir (file_name s)) ≡ file_name s
      → (save_site parse_url join marshal f dir s disk).0 ≡ saved path
      → load_site_file parse_url base unmarshal path
          (save_site parse_url join marshal f dir s disk).1
        ≡ loaded (record s { filename = file_name s })
  unfolding load_site_file
  load_site_file-save_site base unmarshal f dir path s disk yaml named h =
      let (fine, where_to, (b, made, stored)) = save_site_sound f dir path s disk h in
      let same : validate parse_url (record s { filename = file_name s }) ≡ none =
        unfold validate in fine in
      let text : base path ≡ file_name s = ap base where_to ∙ named in
      let disk' = (save_site parse_url join marshal f dir s disk).1 in
      let read : load_site_file parse_url base unmarshal path disk'
          ≡ parsed parse_url base unmarshal path (unmarshal b) =
        ground (arith, stored) in
      let valid : checked parse_url base unmarshal (record s { filename = file_name s })
          ≡ loaded (record s { filename = file_name s }) =
        unfold checked in ground (arith, same) in
      read
      ∙ ap (parsed parse_url base unmarshal path) (yaml b made)
      ∙ (unfold parsed in
          ap (λ (n : Text). checked parse_url base unmarshal (record s { filename = n })) text)
      ∙ valid

module _ (join : Text → Text → Text) where
  -- A file is deleted only under a name with no separator, and then it is the only one to go; a
  -- refused deletion changes nothing.
  pub delete_site_lem :
      (dir filename key : Text) (disk : Disk)
      → (let (done, disk') = delete_site join dir filename disk in
          (lookup key disk' ≡ (if done && key == join dir filename then none else lookup key disk))
          × ((done && (contains filename b'/' || contains filename 92)) ≡ false))
  unfolding delete_site
  delete_site_lem dir filename key disk = elim (Option-cases (lookup (join dir filename) disk)) [
    | inl missing ↦ (ground arith, ground arith)
    | inr (b, found) ↦ (ground (arith, lookup-remove (join dir filename) key disk), ground arith)
  ]
