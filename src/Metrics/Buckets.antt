-- ===== src/Metrics/Buckets.antt =====
-- The invariant of the per-second buckets: a slot holds the sums of the last second that fell into
-- it.
use mathlib.Core.Path.{subst}
use proxy_go.Prelude.{
  Bool-cases, length, get_or, set, length-set, get_or-set, get_or-replicate, ◌==◌, nat_eq, text_eq,
  eq_of_beq, ℕ, ◌%◌, ◌≤◌, ◌<◌, ◌≡◌, refl, ap, ◌∙◌, ◌≢◌, inl, inr, List, [], ◌∷◌, arith,
}
use proxy_go.Metrics.{
  Sample, Bucket, u32, u64, bucket_count, empty_bucket, new_site, added_bytes, bump_bucket,
  record_sample,
}
use proxy_go.Metrics.Window.{Event, replay, IsTimed, one, errors_of, sum_at}

-- no event of the slot is later than `ts`
abbrev pub IsLatest : ℕ → ℕ → List Event → Type 0
IsLatest i ts [] = Unit
IsLatest i ts (e ∷ h) = (e.now % bucket_count ≡ i → e.now ≤ ts) × IsLatest i ts h

pub record SlotOk (i hi : ℕ) (b : Bucket) (h : List Event) : Type 0 where
  pub latest : IsLatest i b.ts_unix h
  pub aligned : 0 < b.ts_unix → b.ts_unix % bucket_count ≡ i
  pub past : b.ts_unix ≤ hi
  pub reqs : b.reqs ≡ sum_at one b.ts_unix h % u32
  pub bytes : b.bytes ≡ sum_at added_bytes b.ts_unix h % u64
  pub errors : b.errors ≡ sum_at errors_of b.ts_unix h % u32

IsLatest-mono : (i ts ts' : ℕ) (h : List Event) → ts ≤ ts' → IsLatest i ts h → IsLatest i ts' h
IsLatest-mono i ts ts' [] le l = tt
IsLatest-mono i ts ts' (e ∷ h) le (l, ls) =
    ((λ p. let q = l p in omega arith), IsLatest-mono i ts ts' h le ls)

-- a later second of the slot has no events
sum_at_later :
    (w : Sample → ℕ) (i ts t : ℕ) (h : List Event)
    → IsLatest i ts h
    → ts < t
    → t % bucket_count ≡ i
    → sum_at w t h ≡ 0
unfolding sum_at
sum_at_later w i ts t [] l lt a = refl
sum_at_later w i ts t (e ∷ h) (l, ls) lt a = ground (arith, sum_at_later w i ts t h ls lt a)

-- The slot that a sample falls into.
SlotOk-bump :
    (e : Event) (b : Bucket) (h : List Event) (hi : ℕ)
    → 1 ≤ e.now
    → hi ≤ e.now
    → SlotOk (e.now % bucket_count) hi b h
    → SlotOk (e.now % bucket_count) e.now (bump_bucket e.sample e.now b) (e ∷ h)
unfolding bump_bucket sum_at
SlotOk-bump e b h hi pos_now le ok = elim (Bool-cases (b.ts_unix == e.now)) [
  | inl same ↦
      let eq : b.ts_unix ≡ e.now = eq_of_beq b.ts_unix e.now same in
      rw same (record {
        latest =
            ((λ _. omega arith), IsLatest-mono _ b.ts_unix b.ts_unix h (omega arith) ok.latest);
        aligned = λ _. ap (λ t. t % bucket_count) eq;
        past = omega arith;
        reqs = ground (arith, ok.reqs);
        bytes = ground (arith, ok.bytes);
        errors = ground (arith, ok.errors);
      })
  | inr other ↦
      let before : b.ts_unix < e.now = ground (arith, ok.past) in
      rw other (record {
        latest = ((λ _. omega arith), IsLatest-mono _ b.ts_unix e.now h (omega arith) ok.latest);
        aligned = λ _. refl;
        past = omega arith;
        reqs = ground (arith, sum_at_later one _ b.ts_unix e.now h ok.latest before refl);
        bytes = ground (arith, sum_at_later added_bytes _ b.ts_unix e.now h ok.latest before refl);
        errors = ground (arith, sum_at_later errors_of _ b.ts_unix e.now h ok.latest before refl);
      })
]

-- Any other slot.
SlotOk-skip :
    (i : ℕ) (e : Event) (b : Bucket) (h : List Event) (hi : ℕ)
    → 1 ≤ e.now
    → hi ≤ e.now
    → e.now % bucket_count ≢ i
    → SlotOk i hi b h
    → SlotOk i e.now b (e ∷ h)
unfolding sum_at
SlotOk-skip i e b h hi pos_now le ne ok =
    let other : e.now ≢ b.ts_unix = λ q. ground (arith, ok.aligned) in
    record {
      latest = ((λ q. absurd (ne q)), ok.latest);
      aligned = ok.aligned;
      past = omega arith;
      reqs = ground (arith, ok.reqs);
      bytes = ground (arith, ok.bytes);
      errors = ground (arith, ok.errors);
    }

SlotOk-set :
    (bs : List Bucket) (e : Event) (h : List Event) (hi i : ℕ)
    → length bs ≡ bucket_count
    → 1 ≤ e.now
    → hi ≤ e.now
    → i < bucket_count
    → ((j : ℕ) → j < bucket_count → SlotOk j hi (get_or bs j empty_bucket) h)
    → SlotOk i e.now
        (get_or
          (set bs
            (e.now % bucket_count)
            (bump_bucket e.sample e.now (get_or bs (e.now % bucket_count) empty_bucket)))
          i
          empty_bucket)
        (e ∷ h)
SlotOk-set bs e h hi i len now_pos le lt all =
    let idx = e.now % bucket_count in
    let b' = bump_bucket e.sample e.now (get_or bs idx empty_bucket) in
    let room : idx < length bs = omega arith in
    let (hit, miss) = get_or-set bs idx i b' empty_bucket room in
    elim (Bool-cases (idx == i)) [
      | inl same ↦
          let eq = eq_of_beq idx i same in
          rw (hit eq) (
            subst (λ j. SlotOk j e.now b' (e ∷ h)) eq
              (SlotOk-bump e (get_or bs idx empty_bucket) h hi now_pos le (all idx (omega arith))))
      | inr other ↦
          let ne : idx ≢ i = ground arith in
          rw (miss ne) (SlotOk-skip i e (get_or bs i empty_bucket) h hi now_pos le ne (all i lt))
    ]

buckets-replay :
    (e : Event) (h : List Event)
    → (replay (e ∷ h)).buckets
      ≡ set (replay h).buckets (e.now % bucket_count) (
          bump_bucket e.sample e.now
            (get_or (replay h).buckets (e.now % bucket_count) empty_bucket))
unfolding replay record_sample
buckets-replay e h = refl

pub length-replay : (h : List Event) → length (replay h).buckets ≡ bucket_count
unfolding replay record_sample new_site
length-replay [] = refl
length-replay (e ∷ h) = length-set (replay h).buckets _ _ ∙ length-replay h

SlotOk-mono :
    {i lo hi : ℕ} {b : Bucket} {h : List Event} → lo ≤ hi → SlotOk i lo b h → SlotOk i hi b h
SlotOk-mono le ok = record {
  latest = ok.latest;
  aligned = ok.aligned;
  past = let p = ok.past in omega arith;
  reqs = ok.reqs;
  bytes = ok.bytes;
  errors = ok.errors;
}

-- After any history each slot holds the sums of its last second.
pub replay-SlotOk :
    (h : List Event) (hi : ℕ)
    → IsTimed hi h
    → (i : ℕ) → i < bucket_count
    → SlotOk i hi (get_or (replay h).buckets i empty_bucket) h
unfolding replay new_site sum_at
replay-SlotOk [] hi t i lt = rw (get_or-replicate bucket_count i empty_bucket) (record {
  latest = tt;
  aligned = λ p. absurd (omega arith);
  past = omega arith;
  reqs = refl;
  bytes = refl;
  errors = refl;
})
replay-SlotOk (e ∷ h) hi (now_pos, le, t) i lt =
    let older = replay-SlotOk h e.now t in
    SlotOk-mono le (
      rw (buckets-replay e h) (
        SlotOk-set (replay h).buckets e h e.now i (length-replay h) now_pos (omega arith) lt older))
