-- ===== src/Ui/Rows/Tests.antt =====
-- Two sites, of which one has been asked for.
use proxy_go.Prelude.{Text, text_beq, nat_eq, text_eq, ◌%◌, ◌≡◌, refl, true, [], ◌∷◌}
use mathlib.Core.List.{Perm}
use proxy_go.Text.{codes}
use proxy_go.Dict.{Dict, lookup}
use proxy_go.Sort.{IsSorted}
use proxy_go.Config.Site.{Site}
use proxy_go.Metrics.{Snapshot, u64}
use proxy_go.Ui.Form.{blank_site}
use proxy_go.Ui.Rows.{zero_snapshot, add_rows, by_domain, build_site_rows}
use proxy_go.Ui.Rows.Totals.{column, active_row, rows_of, build_site_rows_lem}

abbrev shop : Site
shop = record blank_site { domain = codes "s.com"; enabled = true }

abbrev blog : Site
blog = record blank_site { domain = codes "b.com" }

abbrev seen : Dict Text Snapshot
seen = (codes "s.com", record zero_snapshot { reqs_last_1m = 5; bytes_last_1m = 300; p95 = 7 }) ∷ []

build_site_rows_lem_test :
    (let new = rows_of seen (shop ∷ blog ∷ []) in
      let r = build_site_rows (shop ∷ blog ∷ []) seen in
      Perm r.rows new
      × IsSorted by_domain r.rows
      × (r.total_reqs ≡ column (λ q. q.reqs_per_min) new % u64)
      × (r.total_errs ≡ column (λ q. q.errs_per_min) new % u64)
      × (r.total_bytes ≡ column (λ q. q.bytes_per_min) new % u64)
      × (r.active ≡ column active_row new))
build_site_rows_lem_test = build_site_rows_lem seen (shop ∷ blog ∷ [])

totals_test : (build_site_rows (shop ∷ blog ∷ []) seen).total_reqs ≡ 5
unfolding build_site_rows add_rows lookup text_beq
totals_test = refl
