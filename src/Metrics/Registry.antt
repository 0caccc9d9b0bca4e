-- ===== src/Metrics/Registry.antt =====
-- The registry: one site of counters for each domain. A site that `SiteFor` hands out is recorded
-- into at once, in the registry's map.
use mathlib.Core.Option
use proxy_go.Dict.{Dict, lookup, insert, restrict, lookup-insert, lookup-restrict}
use proxy_go.Prelude.{
  if◌then◌else◌, Option-cases, ◌==◌, Text, nat_eq, text_eq, ℕ, ◌≡◌, refl, inl, inr, Bool, Option,
  none, some, [], ◌∷◌, arith,
}
use proxy_go.Metrics.{Sample, Site, Snapshot, new_site, record_sample, snapshot}

pub record Registry : Type 0 where
  pub sites : Dict Text Site

abbrev pub new_registry : Registry
new_registry = record { sites = [] }

-- the site of the domain, made if it is missing, and the registry that holds it
unfoldable pub site_for : Text → Registry → Site × Registry
site_for domain r = elim (lookup domain r.sites) [
  | some s ↦ (s, r)
  | none ↦ (new_site, record { sites = insert domain new_site r.sites })
]

-- the loop of `SnapshotAll`
snapshots : ℕ → Dict Text Site → Dict Text Snapshot
snapshots now [] = []
snapshots now ((d, s) ∷ m) = (d, snapshot now s) ∷ snapshots now m

unfoldable pub snapshot_all : ℕ → Registry → Dict Text Snapshot
unfolding snapshots
snapshot_all now r = snapshots now r.sites

unfoldable pub prune : (Text → Bool) → Registry → Registry
prune keep r = record { sites = restrict keep r.sites }

-- `SiteFor(domain).Record(sm)`, as `recordMetric` of the router does
unfoldable pub record_at : Text → Sample → ℕ → Registry → Registry
record_at domain sm now r =
    let (s, r') = site_for domain r in
    record { sites = insert domain (record_sample sm now s) r'.sites }

lookup-snapshots :
    (d : Text) (now : ℕ) (m : Dict Text Site)
    → lookup d (snapshots now m) ≡ Option.map (snapshot now) (lookup d m)
unfolding snapshots lookup
lookup-snapshots d now [] = refl
lookup-snapshots d now ((k, s) ∷ m) = ground (arith, lookup-snapshots d now m)

-- the site of a domain as `SiteFor` finds it
abbrev pub site_or_new : Option Site → Site
site_or_new none = new_site
site_or_new (some s) = s

pub lookup-record_at :
    (d domain : Text) (sm : Sample) (now : ℕ) (r : Registry)
    → lookup d (record_at domain sm now r).sites ≡ (
        if domain == d
        then some (record_sample sm now (site_or_new (lookup domain r.sites)))
        else lookup d r.sites)
unfolding record_at site_for
lookup-record_at d domain sm now r = elim (Option-cases (lookup domain r.sites)) [
  | inl e ↦ ground (
    arith,
    lookup-insert domain d (record_sample sm now new_site) (insert domain new_site r.sites),
    lookup-insert domain d new_site r.sites,
  )
  | inr (s, e) ↦ ground (arith, lookup-insert domain d (record_sample sm now s) r.sites)
]

-- Recording a sample of one domain changes the snapshot of that domain alone: it becomes the
-- snapshot of its counters, or of new ones, with the sample recorded.
pub snapshot_all-record_at :
    (d domain : Text) (sm : Sample) (now later : ℕ) (r : Registry)
    → lookup d (snapshot_all later (record_at domain sm now r)) ≡ (
        if domain == d
        then some (snapshot later (record_sample sm now (site_or_new (lookup domain r.sites))))
        else lookup d (snapshot_all later r))
unfolding snapshot_all
snapshot_all-record_at d domain sm now later r = ground (
  arith,
  lookup-snapshots d later (record_at domain sm now r).sites,
  lookup-snapshots d later r.sites,
  lookup-record_at d domain sm now r,
)

-- `Prune` drops the domains that are not kept, and changes nothing of the others.
pub snapshot_all-prune :
    (d : Text) (keep : Text → Bool) (now : ℕ) (r : Registry)
    → lookup d (snapshot_all now (prune keep r))
      ≡ (if keep d then lookup d (snapshot_all now r) else none)
unfolding snapshot_all prune
snapshot_all-prune d keep now r = ground (
  arith,
  lookup-snapshots d now (restrict keep r.sites),
  lookup-snapshots d now r.sites,
  lookup-restrict keep d r.sites,
)
