-- ===== src/Metrics/Totals.antt =====
-- The totals of the last minute.
use native.Mathlib.Nat.{mod-eq_of_lt}
use proxy_go.Metrics.Series.{slot_field}
use proxy_go.Prelude.{
  ltb, leb, if◌then◌else◌, Bool-cases, length, get_or, nat_eq, text_eq, ℕ, zero, suc, ◌+◌, ◌%◌, ◌≤◌,
  ◌<◌, ◌≡◌, refl, sym, ap, ◌∙◌, inl, inr, ◌&&◌, List, [], ◌∷◌, arith,
}
use proxy_go.Metrics.{
  Sample, Bucket, u32, u64, bucket_count, empty_bucket, added_bytes, in_window, last_1m, snapshot,
}
use proxy_go.Metrics.Buckets.{SlotOk, length-replay, replay-SlotOk}
use proxy_go.Metrics.Window.{Event, replay, IsTimed, one, errors_of, sum_at, sum_window, sum_slot}

-- the slots from `k` on, `n` of them
sum_slots : (Sample → ℕ) → ℕ → ℕ → ℕ → List Event → ℕ
sum_slots w now zero k h = 0
sum_slots w now (suc n) k h = sum_slot w now k h + sum_slots w now n (k + 1) h

sum_slots-cons :
    (w : Sample → ℕ) (now n k : ℕ) (e : Event) (h : List Event)
    → sum_slots w now n k (e ∷ h)
      ≡ (if ltb now (e.now + bucket_count)
            && (leb k (e.now % bucket_count) && ltb (e.now % bucket_count) (k + n))
          then w e.sample
          else 0)
        + sum_slots w now n k h
unfolding sum_slots sum_slot
sum_slots-cons w now zero k e h = ground arith
sum_slots-cons w now (suc n) k e h = ground (arith, sum_slots-cons w now n (k + 1) e h)

sum_slots-nil : (w : Sample → ℕ) (now n k : ℕ) → sum_slots w now n k [] ≡ 0
unfolding sum_slots sum_slot
sum_slots-nil w now zero k = refl
sum_slots-nil w now (suc n) k = omega (arith, sum_slots-nil w now n (k + 1))

-- Every event falls into one slot.
sum_slots-eq-sum_window :
    (w : Sample → ℕ) (now : ℕ) (h : List Event)
    → sum_slots w now bucket_count 0 h ≡ sum_window w now h
unfolding sum_window
sum_slots-eq-sum_window w now [] = sum_slots-nil w now bucket_count 0
sum_slots-eq-sum_window w now (e ∷ h) =
    ground (arith, sum_slots-cons w now bucket_count 0 e h, sum_slots-eq-sum_window w now h)

sum_slot-le-sum_window :
    (w : Sample → ℕ) (now i : ℕ) (h : List Event) → sum_slot w now i h ≤ sum_window w now h
unfolding sum_slot sum_window
sum_slot-le-sum_window w now i [] = omega arith
sum_slot-le-sum_window w now i (e ∷ h) = ground (arith, sum_slot-le-sum_window w now i h)

-- the first loop of `Snapshot`, from slot `k` on
last_1m-eq-sum_slots :
    (field : Bucket → ℕ) (w : Sample → ℕ) (now acc k : ℕ) (bs : List Bucket) (h : List Event)
    → ((j : ℕ)
        → j < length bs
        → (if in_window now (get_or bs j empty_bucket) then field (get_or bs j empty_bucket) else 0)
          ≡ sum_slot w now (k + j) h)
    → acc + sum_slots w now (length bs) k h < u64
    → last_1m field now acc bs ≡ acc + sum_slots w now (length bs) k h
unfolding last_1m sum_slots
last_1m-eq-sum_slots field w now acc k [] h all small = omega arith
last_1m-eq-sum_slots field w now acc k (b ∷ bs) h all small =
    let here : (if in_window now b then field b else 0) ≡ sum_slot w now k h =
      all 0 (omega arith) ∙ ap (λ m. sum_slot w now m h) (omega arith) in
    let added : (if in_window now b then (acc + field b) % u64 else acc)
        ≡ acc + sum_slot w now k h =
      ground arith in
    rw added (
      last_1m-eq-sum_slots field w now (acc + sum_slot w now k h) (k + 1) bs h
        (λ j lt. all (suc j) (omega arith) ∙ ap (λ m. sum_slot w now m h) (omega arith))
        (omega arith)
      ∙ omega arith)

-- A field that holds its sum modulo `m` adds up to the sum of the last minute, if that is below `m`.
module _ (field : Bucket → ℕ) (w : Sample → ℕ) (m : ℕ) where
  slot_value :
      (now i : ℕ) (h : List Event)
      → IsTimed now h
      → sum_window w now h < m
      → (b : Bucket) → SlotOk i now b h
      → field b ≡ sum_at w b.ts_unix h % m
      → (if in_window now b then field b else 0) ≡ sum_slot w now i h
  slot_value now i h t small b ok e =
      let spread = slot_field w i now b.ts_unix h t ok.latest ok.aligned ok.past in
      let le = sum_slot-le-sum_window w now i h in
      let below : sum_slot w now i h % m ≡ sum_slot w now i h = mod-eq_of_lt (omega arith) in
      elim (Bool-cases (in_window now b)) [
        | inl inside ↦
            let whole : sum_slot w now i h ≡ sum_at w b.ts_unix h = rw inside at spread in
            rw inside (e ∙ ap (λ n. n % m) (sym whole) ∙ below)
        | inr outside ↦
            let gone : sum_slot w now i h ≡ 0 = rw outside at spread in rw outside (sym gone)
      ]

  last_1m-replay :
      (now : ℕ) (h : List Event)
      → IsTimed now h
      → sum_window w now h < m
      → m ≤ u64
      → ((i : ℕ) (b : Bucket) → SlotOk i now b h → field b ≡ sum_at w b.ts_unix h % m)
      → last_1m field now 0 (replay h).buckets ≡ sum_window w now h
  last_1m-replay now h t small fits e =
      let len = length-replay h in
      let bs = (replay h).buckets in
      let all = sum_slots-eq-sum_window w now h in
      let sum : sum_slots w now (length bs) 0 h ≡ sum_window w now h =
        ap (λ n. sum_slots w now n 0 h) len ∙ all in
      last_1m-eq-sum_slots field w now 0 0 bs h
        (λ j lt.
          let ok = replay-SlotOk h now t j (omega arith) in
          let b = get_or bs j empty_bucket in
          slot_value now j h t small b ok (e j b ok) ∙ ap (λ i. sum_slot w now i h) (omega arith))
        (omega arith)
      ∙ omega arith

sum_window-errors-le :
    (now : ℕ) (h : List Event) → sum_window errors_of now h ≤ sum_window one now h
unfolding sum_window
sum_window-errors-le now [] = omega arith
sum_window-errors-le now (e ∷ h) = ground (arith, sum_window-errors-le now h)

-- The last minute of a snapshot has the requests, the bytes and the errors of the samples that are
-- less than 60 seconds old, if the clock did not run backwards and the sums fit the fields.
pub last_1m-replay_lem :
    (h : List Event) (now : ℕ)
    → IsTimed now h
    → sum_window one now h < u32
    → sum_window added_bytes now h < u64
    → (let s = snapshot now (replay h) in
        (s.reqs_last_1m ≡ sum_window one now h)
        × (s.bytes_last_1m ≡ sum_window added_bytes now h)
        × (s.errs_last_1m ≡ sum_window errors_of now h))
unfolding snapshot
last_1m-replay_lem h now t small small_bytes = (
  last_1m-replay (λ b. b.reqs) one u32 now h t small (omega arith) (λ i b ok. ok.reqs),
  last_1m-replay (λ b. b.bytes) added_bytes u64 now h t small_bytes (omega arith)
      (λ i b ok. ok.bytes),
  last_1m-replay (λ b. b.errors) errors_of u32 now h t
      (let le = sum_window-errors-le now h in omega arith) (omega arith) (λ i b ok. ok.errors),
)
