-- ===== src/Metrics/Percentile.antt =====
-- The latency percentiles of a snapshot.
use proxy_go.Prelude.{
  leb, if◌then◌else◌, length, get_or, take, contains, nat_eq, text_eq, ℕ, zero, suc, ◌-◌, ◌*◌, ◌/◌,
  ◌≤◌, ◌<◌, ◌≡◌, refl, sym, ap, ◌∙◌, true, false, List, [], ◌∷◌, arith,
}
use proxy_go.Metrics.{Site, pct, sorted_latencies, snapshot}
use proxy_go.Sort.{sort_by, IsSorted, length-sort_by, sort_by-IsSorted, contains-sort_by}

leb-total : (a b : ℕ) → leb a b ≡ false → leb b a ≡ true
leb-total a b h = ground arith

-- in a sorted list a later place holds no smaller number
get_or_mono :
    (xs : List ℕ) (i j : ℕ)
    → IsSorted leb xs
    → i ≤ j
    → j < length xs
    → get_or xs i 0 ≤ get_or xs j 0
get_or_mono [] i j s le lt = elim lt [ ]
get_or_mono (x ∷ []) zero zero s le lt = omega arith
get_or_mono (x ∷ []) zero (suc j) s le lt = absurd (omega arith)
get_or_mono (x ∷ []) (suc i) j s le lt = absurd (omega arith)
get_or_mono (x ∷ y ∷ xs) zero zero s le lt = omega arith
get_or_mono (x ∷ y ∷ xs) zero (suc j) s le lt =
    ground (arith, s.0, get_or_mono (y ∷ xs) zero j s.1 (omega arith) (omega arith))
get_or_mono (x ∷ y ∷ xs) (suc i) zero s le lt = absurd (omega arith)
get_or_mono (x ∷ y ∷ xs) (suc i) (suc j) s le lt =
    get_or_mono (y ∷ xs) i j s.1 (omega arith) (omega arith)

contains-get_or : (xs : List ℕ) (i : ℕ) → i < length xs → contains xs (get_or xs i 0) ≡ true
contains-get_or [] i h = elim h [ ]
contains-get_or (x ∷ xs) zero h = ground arith
contains-get_or (x ∷ xs) (suc i) h = ground (arith, contains-get_or xs i)

-- the index of the p-th percentile, in a list of `n`
abbrev rank : ℕ → ℕ → ℕ
rank n p = let i = n * p / 100 in if leb n i then n - 1 else i

rank_bounds : (n p q : ℕ) → 0 < n → p ≤ q → (rank n p ≤ rank n q) × (rank n q < n)
rank_bounds n p q h le =
    let below : n * p ≤ n * q = grind arith in
    let quotient : n * p / 100 ≤ n * q / 100 = omega arith in ground arith

pct_lem : (xs : List ℕ) (p : ℕ) → 0 < length xs → pct xs p ≡ get_or xs (rank (length xs) p) 0
unfolding pct
pct_lem [] p h = elim h [ ]
pct_lem (x ∷ xs) p h = refl

pct_mono : (xs : List ℕ) (p q : ℕ) → IsSorted leb xs → p ≤ q → pct xs p ≤ pct xs q
unfolding pct
pct_mono [] p q s le = omega arith
pct_mono (x ∷ xs) p q s le =
    let (below, fits) = rank_bounds (length (x ∷ xs)) p q (omega arith) le in
    get_or_mono (x ∷ xs) _ _ s below fits

contains-pct : (xs : List ℕ) (p : ℕ) → 0 < length xs → contains xs (pct xs p) ≡ true
contains-pct xs p h =
    let (_, fits) = rank_bounds (length xs) p p h (omega arith) in
    ap (contains xs) (pct_lem xs p h) ∙ contains-get_or xs (rank (length xs) p) fits

sorted_lem : (s : Site) → IsSorted leb (sorted_latencies s)
unfolding sorted_latencies
sorted_lem s = sort_by-IsSorted leb leb-total (take s.latency_n s.latency)

contains-sorted :
    (s : Site) (p : ℕ)
    → 0 < length (take s.latency_n s.latency)
    → contains (take s.latency_n s.latency) (pct (sorted_latencies s) p) ≡ true
unfolding sorted_latencies
contains-sorted s p h =
    let ring = take s.latency_n s.latency in
    let len = length-sort_by leb ring in
    sym (contains-sort_by leb ring (pct (sort_by leb ring) p))
    ∙ contains-pct (sort_by leb ring) p (omega arith)

-- The percentiles of a snapshot are in order.
pub percentiles_lem :
    (now : ℕ) (s : Site)
    → ((snapshot now s).p50 ≤ (snapshot now s).p95) × ((snapshot now s).p95 ≤ (snapshot now s).p99)
unfolding snapshot
percentiles_lem now s =
    let sorted = sorted_lem s in
    (
      pct_mono (sorted_latencies s) 50 95 sorted (omega arith),
      pct_mono (sorted_latencies s) 95 99 sorted (omega arith),
    )

-- Each percentile of a snapshot is a latency of the filled part of the ring, if there is one.
pub contains-percentiles :
    (now : ℕ) (s : Site)
    → 0 < length (take s.latency_n s.latency)
    → (let v = snapshot now s in
        let ring = take s.latency_n s.latency in
        (contains ring v.p50 ≡ true) × (contains ring v.p95 ≡ true) × (contains ring v.p99 ≡ true))
unfolding snapshot
contains-percentiles now s h =
    (contains-sorted s 50 h, contains-sorted s 95 h, contains-sorted s 99 h)
