-- ===== src/Config/Loader/Loading.antt =====
-- What the sites read from a directory are.
use proxy_go.Dict.{lookup}
use proxy_go.Prelude.{
  if◌then◌else◌, Bool-cases, Option-cases, length, All, Text, nat_eq, text_eq, ℕ, suc, ◌+◌, ◌≡◌,
  refl, ap, ◌∙◌, inl, inr, Bool, Option, none, some, List, [], ◌∷◌, arith,
}
use proxy_go.Sort.{text_le-total, insert_by, sort_by, IsSorted, length-sort_by, sort_by-IsSorted}
use proxy_go.Config.Site.{Site, Url, validate}
use proxy_go.Config.Loader.{
  LoadError, Loaded, loaded, failed, Entry, Disk, by_domain, is_site_file, checked, parsed,
  load_site_file, add_loaded, load_entries, load_sites,
}

All-insert_by :
    (P : Site → Type 0) (le : Site → Site → Bool) (s : Site) (xs : List Site)
    → P s
    → All P xs
    → All P (insert_by le s xs)
unfolding insert_by
All-insert_by P le s [] p h = (p, tt)
All-insert_by P le s (x ∷ xs) p (q, h) = elim (Bool-cases (le s x)) [
  | inl first ↦ rw first (p, (q, h))
  | inr later ↦ rw later (q, All-insert_by P le s xs p h)
]

All-sort_by :
    (P : Site → Type 0) (le : Site → Site → Bool) (xs : List Site)
    → All P xs
    → All P (sort_by le xs)
unfolding sort_by
All-sort_by P le [] h = tt
All-sort_by P le (x ∷ xs) (p, h) = All-insert_by P le x (sort_by le xs) p (All-sort_by P le xs h)

-- how many of the entries are files of sites
abbrev pub site_files : List Entry → ℕ
site_files [] = 0
site_files (e ∷ es) = if is_site_file e then suc (site_files es) else site_files es

module _ (parse_url : Text → Option Url) (base : Text → Text) (unmarshal : Text → Option Site) where
  checked_sound :
      (t s : Site) → checked parse_url base unmarshal t ≡ loaded s → validate parse_url s ≡ none
  unfolding checked
  checked_sound t s h = elim (Option-cases (validate parse_url t)) [
    | inr (e, bad) ↦ absurd (ground arith)
    | inl fine ↦ let same : t ≡ s = ground arith in rw same at fine
  ]

  parsed_sound :
      (path : Text) (o : Option Site) (s : Site)
      → parsed parse_url base unmarshal path o ≡ loaded s
      → validate parse_url s ≡ none
  unfolding parsed
  parsed_sound path none s h = absurd (ground arith)
  parsed_sound path (some t) s h = checked_sound (record t { filename = base path }) s h

  -- what is loaded is valid
  load_site_file_sound :
      (path : Text) (disk : Disk) (s : Site)
      → load_site_file parse_url base unmarshal path disk ≡ loaded s
      → validate parse_url s ≡ none
  unfolding load_site_file
  load_site_file_sound path disk s h = elim (Option-cases (lookup path disk)) [
    | inl missing ↦ absurd (ground arith)
    | inr (b, found) ↦ parsed_sound path (unmarshal b) s (ground (arith, h, found))
  ]

  module _ (join : Text → Text → Text) where
    add_loaded_lem :
        (name : Text) (l : Loaded Site) (sites : List Site) (errs : List (Text × LoadError))
        → ((s : Site) → l ≡ loaded s → validate parse_url s ≡ none)
        → All (λ s. validate parse_url s ≡ none) sites
        → (let (sites', errs') = add_loaded parse_url base unmarshal join name l (sites, errs) in
            All (λ s. validate parse_url s ≡ none) sites'
            × (length sites' + length errs' ≡ suc (length sites + length errs)))
    unfolding add_loaded
    add_loaded_lem name (loaded s) sites errs good all = ((good s refl, all), omega arith)
    add_loaded_lem name (failed e) sites errs good all = (all, omega arith)

    load_entries_lem :
        (dir : Text) (es : List Entry) (disk : Disk)
        → (let (sites, errs) = load_entries parse_url base unmarshal join dir es disk in
            All (λ s. validate parse_url s ≡ none) sites
            × (length sites + length errs ≡ site_files es))
    unfolding load_entries
    load_entries_lem dir [] disk = (tt, refl)
    load_entries_lem dir (e ∷ es) disk =
        let (valid, count) = load_entries_lem dir es disk in
        let (sites, errs) = load_entries parse_url base unmarshal join dir es disk in
        elim (Bool-cases (is_site_file e)) [
          | inr other ↦ rw other (valid, count)
          | inl file ↦
              let (valid', count') =
                add_loaded_lem e.name
                  (load_site_file parse_url base unmarshal (join dir e.name) disk) sites errs
                  (load_site_file_sound (join dir e.name) disk) valid in
              rw file (valid', count' ∙ ap suc count)
        ]

    -- The sites of a directory are valid and in order of their domains, and a broken file does not
    -- hide another: every file of a site gives one site or one error.
    pub load_sites_lem :
        (dir : Text) (es : List Entry) (disk : Disk)
        → (let (sites, errs) = load_sites parse_url base unmarshal join dir (some es) disk in
            All (λ s. validate parse_url s ≡ none) sites
            × IsSorted by_domain sites
            × (length sites + length errs ≡ site_files es))
    unfolding load_sites
    load_sites_lem dir es disk =
        let (valid, count) = load_entries_lem dir es disk in
        let (sites, errs) = load_entries parse_url base unmarshal join dir es disk in
        (
          All-sort_by (λ s. validate parse_url s ≡ none) by_domain sites valid,
          sort_by-IsSorted by_domain (λ a b. text_le-total a.domain b.domain) sites,
          ap (λ n. n + length errs) (length-sort_by by_domain sites) ∙ count,
        )
