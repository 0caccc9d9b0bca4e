-- ===== src/Ui/Rows.antt =====
-- internal/ui/ui.go: the rows of the dashboard with their totals.
pub mod Totals
mod Tests
use proxy_go.Prelude.{
  if◌then◌else◌, replicate, Text, nat_eq, text_eq, ℕ, ◌+◌, ◌%◌, ◌^◌, Bool, none, some, List, [],
  ◌∷◌, ◌++◌,
}
use proxy_go.Dict.{Dict, lookup}
use proxy_go.Sort.{text_le, sort_by}
use proxy_go.Config.Site.{TlsConfig, Site}
use proxy_go.Metrics.{Snapshot}

pub record SiteRow : Type 0 where
  pub domain : Text
  pub aliases : List Text
  pub filename : Text
  pub enabled : Bool
  pub upstreams : List Text
  pub tls : TlsConfig
  pub reqs_per_min : ℕ
  pub bytes_per_min : ℕ
  pub errs_per_min : ℕ
  pub p95 : ℕ

pub record Rows : Type 0 where
  pub rows : List SiteRow
  pub total_reqs : ℕ
  pub total_errs : ℕ
  pub total_bytes : ℕ
  pub active : ℕ

abbrev pub u64 : ℕ
u64 = 2 ^ 64

-- the zero value, which a missing key of the map reads as
abbrev pub zero_snapshot : Snapshot
zero_snapshot = record {
  total_requests = 0;
  total_bytes = 0;
  total_errors = 0;
  reqs_last_1m = 0;
  bytes_last_1m = 0;
  errs_last_1m = 0;
  reqs_per_sec = replicate 60 0;
  p50 = 0;
  p95 = 0;
  p99 = 0;
  status_counts = [];
}

abbrev pub snapshot_of : Dict Text Snapshot → Site → Snapshot
snapshot_of snaps s = elim (lookup s.domain snaps) [ none ↦ zero_snapshot | some v ↦ v ]

abbrev pub site_row : Site → Snapshot → SiteRow
site_row s v = record {
  domain = s.domain;
  aliases = s.aliases;
  filename = s.filename;
  enabled = s.enabled;
  upstreams = s.upstreams;
  tls = s.tls;
  reqs_per_min = v.reqs_last_1m;
  bytes_per_min = v.bytes_last_1m;
  errs_per_min = v.errs_last_1m;
  p95 = v.p95;
}

-- the loop over the sites, with what it has added up so far
add_rows : Dict Text Snapshot → List Site → Rows → Rows
add_rows snaps [] acc = acc
add_rows snaps (s ∷ sites) acc =
    let v = snapshot_of snaps s in
    add_rows snaps sites (record {
      rows = acc.rows ++ site_row s v ∷ [];
      total_reqs = (acc.total_reqs + v.reqs_last_1m) % u64;
      total_errs = (acc.total_errs + v.errs_last_1m) % u64;
      total_bytes = (acc.total_bytes + v.bytes_last_1m) % u64;
      active = if s.enabled then acc.active + 1 else acc.active;
    })

abbrev pub by_domain : SiteRow → SiteRow → Bool
by_domain a b = text_le a.domain b.domain

unfoldable pub build_site_rows : List Site → Dict Text Snapshot → Rows
unfolding add_rows
build_site_rows sites snaps =
    let r =
      add_rows snaps sites
        (record { rows = []; total_reqs = 0; total_errs = 0; total_bytes = 0; active = 0 }) in
    record r { rows = sort_by by_domain r.rows }
