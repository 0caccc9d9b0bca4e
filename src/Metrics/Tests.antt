-- ===== src/Metrics/Tests.antt =====
-- Three samples, two of them in one second, the third of them an error.
use proxy_go.Prelude.{
  if◌then◌else◌, get_or, contains, ◌==◌, nat_eq, text_eq, ℕ, ◌-◌, ◌%◌, ◌≤◌, ◌≡◌, refl, true, none,
  some, List, [], ◌∷◌, arith,
}
use proxy_go.Prelude.Int.{pos}
use proxy_go.Text.{codes}
use proxy_go.Dict.{lookup}
use proxy_go.Metrics.{
  Sample, Site, u32, bucket_count, empty_bucket, new_site, added_bytes, latency_ms, record_sample,
  snapshot,
}
use proxy_go.Metrics.Window.{Event, replay, IsTimed, one, errors_of, sum_at, sum_window}
use proxy_go.Metrics.Buckets.{SlotOk, replay-SlotOk}
use proxy_go.Metrics.Series.{reqs_per_sec-replay}
use proxy_go.Metrics.Totals.{last_1m-replay_lem}
use proxy_go.Metrics.Percentile.{percentiles_lem, contains-percentiles}
use proxy_go.Metrics.Registry.{
  Registry, snapshot_all, prune, record_at, site_or_new, snapshot_all-record_at, snapshot_all-prune,
}

abbrev page : Sample
page = record { status = 200; bytes = pos 512; latency = 3_000_000 }

abbrev failure : Sample
failure = record { status = 502; bytes = pos 0; latency = 10 }

abbrev history : List Event
history =
    record { now = 1100; sample = failure }
    ∷ record { now = 1100; sample = page }
    ∷ record { now = 1000; sample = page }
    ∷ []

history-IsTimed : IsTimed 1120 history
history-IsTimed =
    (omega arith, omega arith, (omega arith, omega arith, (omega arith, omega arith, tt)))

latency_test : latency_ms failure ≡ 1
unfolding latency_ms
latency_test = refl

replay-SlotOk_test : SlotOk 20 1120 (get_or (replay history).buckets 20 empty_bucket) history
replay-SlotOk_test = replay-SlotOk history 1120 history-IsTimed 20 (omega arith)

reqs_per_sec-replay_example :
    get_or (snapshot 1120 (replay history)).reqs_per_sec 39 0
    ≡ sum_at one (1120 - (bucket_count - 1 - 39)) history % u32
reqs_per_sec-replay_example = reqs_per_sec-replay history 1120 39 history-IsTimed (omega arith)

last_1m-replay_lem_example :
    let s = snapshot 1120 (replay history) in
    (s.reqs_last_1m ≡ sum_window one 1120 history)
    × (s.bytes_last_1m ≡ sum_window added_bytes 1120 history)
    × (s.errs_last_1m ≡ sum_window errors_of 1120 history)
last_1m-replay_lem_example =
    last_1m-replay_lem history 1120 history-IsTimed (unfold sum_window in omega arith)
      (unfold sum_window in omega arith)

abbrev short_ring : Site
short_ring = record new_site { latency = 30 ∷ 10 ∷ 20 ∷ 0 ∷ []; latency_n = 3 }

percentiles_lem_test :
    ((snapshot 1120 short_ring).p50 ≤ (snapshot 1120 short_ring).p95)
    × ((snapshot 1120 short_ring).p95 ≤ (snapshot 1120 short_ring).p99)
percentiles_lem_test = percentiles_lem 1120 short_ring

contains-percentiles_test :
    let v = snapshot 1120 short_ring in
    let ring : List ℕ = 30 ∷ 10 ∷ 20 ∷ [] in
    (contains ring v.p50 ≡ true) × (contains ring v.p95 ≡ true) × (contains ring v.p99 ≡ true)
contains-percentiles_test = contains-percentiles 1120 short_ring (omega arith)

abbrev shop_only : Registry
shop_only = record { sites = (codes "shop", new_site) ∷ [] }

snapshot_all-record_at_test :
    lookup (codes "shop") (snapshot_all 1120 (record_at (codes "blog") page 1100 shop_only)) ≡ (
      if codes "blog" == codes "shop"
      then some (
          snapshot 1120
            (record_sample page 1100 (site_or_new (lookup (codes "blog") shop_only.sites))))
      else lookup (codes "shop") (snapshot_all 1120 shop_only))
snapshot_all-record_at_test =
    snapshot_all-record_at (codes "shop") (codes "blog") page 1100 1120 shop_only

snapshot_all-prune_test :
    lookup (codes "shop") (snapshot_all 1120 (prune (λ d. d == codes "blog") shop_only)) ≡ (
      if codes "shop" == codes "blog"
      then lookup (codes "shop") (snapshot_all 1120 shop_only)
      else none)
snapshot_all-prune_test = snapshot_all-prune (codes "shop") (λ d. d == codes "blog") 1120 shop_only
