-- ===== src/Metrics/Window.antt =====
-- What a snapshot should count: sums over the history of the recorded samples, newest first.
use proxy_go.Prelude.{
  ltb, if◌then◌else◌, ◌==◌, nat_eq, text_eq, ℕ, ◌+◌, ◌%◌, ◌≤◌, ◌&&◌, List, [], ◌∷◌,
}
use proxy_go.Metrics.{Sample, Site, bucket_count, new_site, is_err, one_if, record_sample}

pub record Event : Type 0 where
  pub now : ℕ
  pub sample : Sample

-- the site after a history
unfoldable pub replay : List Event → Site
replay [] = new_site
replay (e ∷ h) = record_sample e.sample e.now (replay h)

-- The seconds do not run backwards, and lie between 1 and `hi`.
abbrev pub IsTimed : ℕ → List Event → Type 0
IsTimed hi [] = Unit
IsTimed hi (e ∷ h) = (1 ≤ e.now) × (e.now ≤ hi) × IsTimed e.now h

-- the weights that the fields of a bucket add up
abbrev pub one : Sample → ℕ
one sm = 1

abbrev pub errors_of : Sample → ℕ
errors_of sm = one_if (is_err sm)

-- the weight of the samples of one second
unfoldable pub sum_at : (Sample → ℕ) → ℕ → List Event → ℕ
sum_at w t [] = 0
sum_at w t (e ∷ h) = (if e.now == t then w e.sample else 0) + sum_at w t h

-- of the last 60 seconds
unfoldable pub sum_window : (Sample → ℕ) → ℕ → List Event → ℕ
sum_window w now [] = 0
sum_window w now (e ∷ h) =
    (if ltb now (e.now + bucket_count) then w e.sample else 0) + sum_window w now h

-- of those of the last 60 seconds that fall into one slot
unfoldable pub sum_slot : (Sample → ℕ) → ℕ → ℕ → List Event → ℕ
sum_slot w now i [] = 0
sum_slot w now i (e ∷ h) =
    (if ltb now (e.now + bucket_count) && e.now % bucket_count == i then w e.sample else 0)
    + sum_slot w now i h
