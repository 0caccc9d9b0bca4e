-- ===== src/Metrics/Series.antt =====
-- The last minute of a snapshot, and its series by seconds, count the samples of the history.
use proxy_go.Prelude.{
  leb, if◌then◌else◌, Bool-cases, get_or, ◌==◌, nat_eq, text_eq, eq_of_beq, ℕ, zero, suc, ◌+◌, ◌-◌,
  ◌%◌, ◌≤◌, ◌<◌, ◌≡◌, refl, ap, ◌∙◌, ◌≢◌, inl, inr, not, ◌||◌, List, [], ◌∷◌, arith,
}
use proxy_go.Metrics.{Sample, Bucket, u32, bucket_count, empty_bucket, series, snapshot}
use proxy_go.Metrics.Window.{Event, replay, IsTimed, one, sum_at, sum_slot}
use proxy_go.Metrics.Buckets.{SlotOk, IsLatest, replay-SlotOk}

pub IsTimed-mono : (lo hi : ℕ) (h : List Event) → lo ≤ hi → IsTimed lo h → IsTimed hi h
IsTimed-mono lo hi [] le t = tt
IsTimed-mono lo hi (e ∷ h) le (p, q, t) = (p, omega arith, t)

-- a second of the last minute has no events that its slot has lost
sum_at_lost :
    (w : Sample → ℕ) (ts t hi : ℕ) (h : List Event)
    → IsTimed hi h
    → IsLatest (t % bucket_count) ts h
    → (0 < ts → ts % bucket_count ≡ t % bucket_count)
    → ts ≤ hi
    → ts ≢ t
    → hi < t + bucket_count
    → sum_at w t h ≡ 0
unfolding sum_at
sum_at_lost w ts t hi [] o l a p ne win = refl
sum_at_lost w ts t hi (e ∷ h) (p1, p2, o) (l, ls) a p ne win =
    ground (arith, sum_at_lost w ts t hi h (IsTimed-mono e.now hi h p2 o) ls a p ne win)

-- One slot of the last minute.
pub slot_field :
    (w : Sample → ℕ) (i now ts : ℕ) (h : List Event)
    → IsTimed now h
    → IsLatest i ts h
    → (0 < ts → ts % bucket_count ≡ i)
    → ts ≤ now
    → sum_slot w now i h
      ≡ (if not (ts == 0 || leb (ts + bucket_count) now) then sum_at w ts h else 0)
unfolding sum_slot sum_at
slot_field w i now ts [] o l a p = ground arith
slot_field w i now ts (e ∷ h) (p1, p2, o) (l, ls) a p =
    ground (arith, slot_field w i now ts h (IsTimed-mono e.now now h p2 o) ls a p)

-- what the series shows for one second
abbrev shown : ℕ → Bucket → ℕ
shown ts b = if b.ts_unix == ts then b.reqs else 0

abbrev place : ℕ → List Bucket → ℕ
place ts bs = shown ts (get_or bs (ts % bucket_count) empty_bucket)

get_or-series :
    (n k j now : ℕ) (bs : List Bucket)
    → j < n
    → get_or (series n k now bs) j 0 ≡ place (now - (bucket_count - 1 - (k + j))) bs
unfolding series
get_or-series zero k j now bs h = elim h [ ]
get_or-series (suc n) k zero now bs h =
    ap (λ m. place (now - (bucket_count - 1 - m)) bs) (omega arith)
get_or-series (suc n) k (suc j) now bs h =
    get_or-series n (k + 1) j now bs (omega arith)
    ∙ ap (λ m. place (now - (bucket_count - 1 - m)) bs) (omega arith)

place_lem :
    (ts now : ℕ) (b : Bucket) (h : List Event)
    → IsTimed now h
    → now < ts + bucket_count
    → SlotOk (ts % bucket_count) now b h
    → shown ts b ≡ sum_at one ts h % u32
place_lem ts now b h t win ok = elim (Bool-cases (b.ts_unix == ts)) [
  | inl same ↦ rw same (ok.reqs ∙ ap (λ u. sum_at one u h % u32) (eq_of_beq b.ts_unix ts same))
  | inr other ↦ rw other (
      ground (
        arith,
        sum_at_lost one b.ts_unix ts now h t ok.latest ok.aligned ok.past (ground arith) win,
      ))
]

-- The chart of a snapshot: at each of its 60 places it has the number of samples of that second, as
-- a uint32, if the clock did not run backwards.
pub reqs_per_sec-replay :
    (h : List Event) (now offset : ℕ)
    → IsTimed now h
    → offset < bucket_count
    → get_or (snapshot now (replay h)).reqs_per_sec offset 0
      ≡ sum_at one (now - (bucket_count - 1 - offset)) h % u32
unfolding snapshot
reqs_per_sec-replay h now offset t lt =
    let ts = now - (bucket_count - 1 - offset) in
    get_or-series bucket_count 0 offset now (replay h).buckets lt
    ∙ ap (λ m. place (now - (bucket_count - 1 - m)) (replay h).buckets) (omega arith)
    ∙ place_lem ts now _ h t (omega arith) (replay-SlotOk h now t (ts % bucket_count) (omega arith))
