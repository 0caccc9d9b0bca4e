-- ===== src/Metrics.antt =====
-- internal/metrics/metrics.go: the counters of one domain, and the registry of all. The mutex and
-- the atomics make each method one step. Time is in unix seconds, a latency in nanoseconds.
pub mod Window
pub mod Buckets
pub mod Series
pub mod Totals
pub mod Percentile
pub mod Registry
mod Tests
use proxy_go.Dict.{Dict, lookup, insert}
use proxy_go.Prelude.Int.{ℤ, pos, pos_part, ltb_ℤ}
use proxy_go.Prelude.{
  ltb, leb, if◌then◌else◌, length, is_empty, get_or, set, take, replicate, ◌==◌, nat_eq, text_eq, ℕ,
  zero, suc, ◌+◌, ◌-◌, ◌*◌, ◌/◌, ◌%◌, ◌^◌, Bool, not, ◌&&◌, ◌||◌, none, some, List, [], ◌∷◌,
}
use proxy_go.Sort.{sort_by}

abbrev pub u32 : ℕ
u32 = 2 ^ 32

abbrev pub u64 : ℕ
u64 = 2 ^ 64

abbrev pub bucket_count : ℕ
bucket_count = 60

abbrev pub lat_ring_size : ℕ
lat_ring_size = 1024

pub record Sample : Type 0 where
  pub status : ℕ
  pub bytes : ℤ
  pub latency : ℕ

pub record Bucket : Type 0 where
  pub ts_unix : ℕ
  pub reqs : ℕ
  pub bytes : ℕ
  pub errors : ℕ

abbrev pub empty_bucket : Bucket
empty_bucket = record { ts_unix = 0; reqs = 0; bytes = 0; errors = 0 }

pub record Site : Type 0 where
  pub total_requests : ℕ
  pub total_bytes : ℕ
  pub total_errors : ℕ
  pub buckets : List Bucket
  pub bucket_at : ℕ
  pub latency : List ℕ
  pub latency_idx : ℕ
  pub latency_n : ℕ
  pub status_counts : Dict ℕ ℕ

unfoldable pub new_site : Site
new_site = record {
  total_requests = 0;
  total_bytes = 0;
  total_errors = 0;
  buckets = replicate bucket_count empty_bucket;
  bucket_at = 0;
  latency = replicate lat_ring_size 0;
  latency_idx = 0;
  latency_n = 0;
  status_counts = [];
}

unfoldable pub is_err : Sample → Bool
is_err sm = leb 500 sm.status || sm.status == 0

-- a positive number of bytes counts, any other adds nothing
abbrev pub added_bytes : Sample → ℕ
added_bytes sm = if ltb_ℤ (pos 0) sm.bytes then pos_part sm.bytes else 0

abbrev pub one_if : Bool → ℕ
one_if b = if b then 1 else 0

-- whole milliseconds as a uint32; a positive latency that comes to 0 counts as 1
unfoldable pub latency_ms : Sample → ℕ
latency_ms sm =
    let ms = sm.latency / 1_000_000 % u32 in if ms == 0 && ltb 0 sm.latency then 1 else ms

-- the slot of the second, reset if it holds another second, with the sample added
unfoldable pub bump_bucket : Sample → ℕ → Bucket → Bucket
unfolding is_err
bump_bucket sm now b =
    let b' = if b.ts_unix == now then b else record empty_bucket { ts_unix = now } in
    record b' {
      reqs = (b'.reqs + 1) % u32;
      bytes = (b'.bytes + added_bytes sm) % u64;
      errors = (b'.errors + one_if (is_err sm)) % u32;
    }

unfoldable pub record_sample : Sample → ℕ → Site → Site
unfolding is_err latency_ms bump_bucket
record_sample sm now s =
    let idx = now % bucket_count in
    record {
      total_requests = (s.total_requests + 1) % u64;
      total_bytes = (s.total_bytes + added_bytes sm) % u64;
      total_errors = (s.total_errors + one_if (is_err sm)) % u64;
      buckets = set s.buckets idx (bump_bucket sm now (get_or s.buckets idx empty_bucket));
      bucket_at = now;
      latency = set s.latency s.latency_idx (latency_ms sm);
      latency_idx = (s.latency_idx + 1) % lat_ring_size;
      latency_n = if ltb s.latency_n lat_ring_size then s.latency_n + 1 else s.latency_n;
      status_counts =
          insert sm.status
            (((elim (lookup sm.status s.status_counts) [ none ↦ 0 | some n ↦ n ]) + 1) % u64)
            s.status_counts;
    }

pub record Snapshot : Type 0 where
  pub total_requests : ℕ
  pub total_bytes : ℕ
  pub total_errors : ℕ
  pub reqs_last_1m : ℕ
  pub bytes_last_1m : ℕ
  pub errs_last_1m : ℕ
  pub reqs_per_sec : List ℕ
  pub p50 : ℕ
  pub p95 : ℕ
  pub p99 : ℕ
  pub status_counts : Dict ℕ ℕ

-- the test by which the first loop of `Snapshot` skips a bucket, negated
abbrev pub in_window : ℕ → Bucket → Bool
in_window now b = not (b.ts_unix == 0 || leb (b.ts_unix + bucket_count) now)

-- the first loop, for one field of the buckets
unfoldable pub last_1m : (Bucket → ℕ) → ℕ → ℕ → List Bucket → ℕ
last_1m field now acc [] = acc
last_1m field now acc (b ∷ bs) =
    last_1m field now (if in_window now b then (acc + field b) % u64 else acc) bs

-- the second loop: the seconds from the oldest, `n` of them from offset `k`
unfoldable pub series : ℕ → ℕ → ℕ → List Bucket → List ℕ
series zero k now bs = []
series (suc n) k now bs =
    let ts = now - (bucket_count - 1 - k) in
    let b = get_or bs (ts % bucket_count) empty_bucket in
    (if b.ts_unix == ts then b.reqs else 0) ∷ series n (k + 1) now bs

unfoldable pub pct : List ℕ → ℕ → ℕ
pct sorted p =
    if is_empty sorted
    then 0
    else (let i = length sorted * p / 100 in
        let i' = if leb (length sorted) i then length sorted - 1 else i in get_or sorted i' 0)

-- the sorted copy of the filled part of the ring
unfoldable pub sorted_latencies : Site → List ℕ
sorted_latencies s = sort_by leb (take s.latency_n s.latency)

-- An empty ring has no latencies, and `pct` of none is 0.
unfoldable pub snapshot : ℕ → Site → Snapshot
snapshot now s =
    let buf = sorted_latencies s in
    record {
      total_requests = s.total_requests;
      total_bytes = s.total_bytes;
      total_errors = s.total_errors;
      reqs_last_1m = last_1m (λ b. b.reqs) now 0 s.buckets;
      bytes_last_1m = last_1m (λ b. b.bytes) now 0 s.buckets;
      errs_last_1m = last_1m (λ b. b.errors) now 0 s.buckets;
      reqs_per_sec = series bucket_count 0 now s.buckets;
      p50 = pct buf 50;
      p95 = pct buf 95;
      p99 = pct buf 99;
      status_counts = s.status_counts;
    }
