-- ===== src/Ui/Rows/Totals.antt =====
-- The totals of the dashboard are those of its rows.
use mathlib.Core.List.{Perm, append_assoc, append-nil}
use proxy_go.Prelude.{
  if◌then◌else◌, Text, nat_eq, text_eq, ℕ, ◌+◌, ◌%◌, ◌<◌, ◌≡◌, sym, ◌∙◌, List, [], ◌∷◌, ◌++◌, map,
  arith,
}
use proxy_go.Dict.{Dict}
use proxy_go.Sort.{text_le-total, IsSorted, sort_by-perm, sort_by-IsSorted}
use proxy_go.Config.Site.{Site}
use proxy_go.Metrics.{Snapshot, u64}
use proxy_go.Ui.Rows.{SiteRow, Rows, snapshot_of, site_row, add_rows, by_domain, build_site_rows}

-- the sum of a column
abbrev pub column : (SiteRow → ℕ) → List SiteRow → ℕ
column f [] = 0
column f (r ∷ rs) = f r + column f rs

abbrev pub active_row : SiteRow → ℕ
active_row r = if r.enabled then 1 else 0

-- the row of each site, in the order of the sites
abbrev pub rows_of : Dict Text Snapshot → List Site → List SiteRow
rows_of snaps = map (λ s. site_row s (snapshot_of snaps s))

add_rows_lem :
    (snaps : Dict Text Snapshot) (sites : List Site) (acc : Rows)
    → (acc.total_reqs < u64) × (acc.total_errs < u64) × (acc.total_bytes < u64)
    → (let new = rows_of snaps sites in
        let r = add_rows snaps sites acc in
        (r.rows ≡ acc.rows ++ new)
        × (r.total_reqs ≡ (acc.total_reqs + column (λ q. q.reqs_per_min) new) % u64)
        × (r.total_errs ≡ (acc.total_errs + column (λ q. q.errs_per_min) new) % u64)
        × (r.total_bytes ≡ (acc.total_bytes + column (λ q. q.bytes_per_min) new) % u64)
        × (r.active ≡ acc.active + column active_row new))
unfolding add_rows
add_rows_lem snaps [] acc fits =
    (sym (append-nil acc.rows), omega arith, omega arith, omega arith, omega arith)
add_rows_lem snaps (s ∷ sites) acc fits =
    let (rows, reqs, errs, bytes, active) =
      add_rows_lem snaps sites _ (omega arith, omega arith, omega arith) in
    (
      rows ∙ append_assoc acc.rows (site_row s (snapshot_of snaps s) ∷ []) (rows_of snaps sites),
      reqs ∙ omega arith,
      errs ∙ omega arith,
      bytes ∙ omega arith,
      active ∙ ground arith,
    )

-- The dashboard has one row for each site, in order of the domains. Its totals are the sums of the
-- rows' columns, as uint64, and the active sites are those that are enabled.
pub build_site_rows_lem :
    (snaps : Dict Text Snapshot) (sites : List Site)
    → (let new = rows_of snaps sites in
        let r = build_site_rows sites snaps in
        Perm r.rows new
        × IsSorted by_domain r.rows
        × (r.total_reqs ≡ column (λ q. q.reqs_per_min) new % u64)
        × (r.total_errs ≡ column (λ q. q.errs_per_min) new % u64)
        × (r.total_bytes ≡ column (λ q. q.bytes_per_min) new % u64)
        × (r.active ≡ column active_row new))
unfolding build_site_rows
build_site_rows_lem snaps sites =
    let (rows, reqs, errs, bytes, active) =
      add_rows_lem snaps sites
        (record { rows = []; total_reqs = 0; total_errs = 0; total_bytes = 0; active = 0 })
        (omega arith, omega arith, omega arith) in
    (
      rw rows (sort_by-perm by_domain (rows_of snaps sites)),
      sort_by-IsSorted by_domain (λ a b. text_le-total a.domain b.domain) _,
      reqs ∙ omega arith,
      errs ∙ omega arith,
      bytes ∙ omega arith,
      active ∙ omega arith,
    )
