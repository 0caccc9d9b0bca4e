-- ===== src/Proxy/Router/Flight/Tracking.antt =====
-- The registry as the places of its counters: `SiteFor` and `Record` through a place are `record_at`.
use proxy_go.Prelude.{
  Bool-cases, Option-cases, length, get_or, set, length-append, length-set, get_or-set,
  get_or-append_new, get_or-append_old, ◌==◌, Text, nat_eq, text_eq, beq_refl, eq_of_beq, ℕ, ◌<◌,
  ◌≡◌, refl, sym, ap, ◌∙◌, ◌⊎◌, inl, inr, Option, none, some, [], ◌∷◌, ◌++◌, arith,
}
use proxy_go.Dict.{lookup, insert, lookup-insert}
use proxy_go.Metrics.{Sample, new_site, record_sample}
use proxy_go.Metrics.Registry.{Registry, record_at, lookup-record_at}
use proxy_go.Proxy.Router.Flight.{Shared, track, store_sample}
use mathlib.Core.Option

-- every domain has counters of its own
pub record IsTracked (s : Shared) : Type 0 where
  pub inside : (d : Text) (q : ℕ) → lookup d s.sites ≡ some q → q < length s.stats
  pub apart :
      (d d' : Text) (q : ℕ) → lookup d s.sites ≡ some q → lookup d' s.sites ≡ some q → d ≡ d'

-- the registry has the counters that stand at the places
abbrev pub Tracks : Shared → Registry → Type 0
Tracks s g =
    (d : Text) → lookup d g.sites ≡ Option.map (λ q. get_or s.stats q new_site) (lookup d s.sites)

-- with a new place for the domain
abbrev pub grown : Text → Shared → Shared
grown domain s = record s {
  sites = insert domain (length s.stats) s.sites;
  stats = s.stats ++ new_site ∷ [];
}

pub track-cases :
    (domain : Text) (s : Shared)
    → ((q : ℕ) × (lookup domain s.sites ≡ some q) × (track domain s ≡ (q, s)))
      ⊎ ((lookup domain s.sites ≡ none) × (track domain s ≡ (length s.stats, grown domain s)))
unfolding track
track-cases domain s = elim (Option-cases (lookup domain s.sites)) [
  | inr (q, held) ↦ inl (q, held, rw (held, track) refl)
  | inl free ↦ inr (free, rw (free, track) refl)
]

pub IsTracked-grown :
    (domain : Text) (s : Shared)
    → lookup domain s.sites ≡ none
    → IsTracked s
    → IsTracked (grown domain s)
IsTracked-grown domain s free i =
    let q = length s.stats in
    record {
      inside = λ d p e. ground (
        arith,
        lookup-insert domain d q s.sites,
        i.inside d p,
        length-append s.stats (new_site ∷ []),
      );
      apart = λ d d' p e e'. ground (
        arith,
        lookup-insert domain d q s.sites,
        lookup-insert domain d' q s.sites,
        i.inside d p,
        i.inside d' p,
        i.apart d d' p,
        beq_refl d,
        eq_of_beq domain d,
        eq_of_beq domain d',
      );
    }

map-agree :
    {B : Type 0} (o : Option ℕ) (f h : ℕ → B)
    → ((p : ℕ) → o ≡ some p → f p ≡ h p)
    → Option.map f o ≡ Option.map h o
map-agree none f h same = refl
map-agree (some p) f h same = ap some (same p refl)

-- the registry with new counters for the domain
abbrev grown_registry : Text → Registry → Registry
grown_registry domain g = record { sites = insert domain new_site g.sites }

Tracks-grown :
    (domain : Text) (s : Shared) (g : Registry)
    → IsTracked s
    → Tracks s g
    → Tracks (grown domain s) (grown_registry domain g)
Tracks-grown domain s g i t d =
    let q = length s.stats in
    let read = λ (p : ℕ). get_or (s.stats ++ new_site ∷ []) p new_site in
    elim (Bool-cases (domain == d)) [
      | inl same ↦
          rw (lookup-insert domain d new_site g.sites, lookup-insert domain d q s.sites, same)
            (ap some (sym (get_or-append_new s.stats new_site [] new_site)))
      | inr other ↦
          rw (lookup-insert domain d new_site g.sites, lookup-insert domain d q s.sites, other)
            (t d
              ∙ map-agree (lookup d s.sites) (λ p. get_or s.stats p new_site) read
                  (λ p e.
                    sym (get_or-append_old s.stats (new_site ∷ []) p new_site (i.inside d p e))))
    ]

-- recording through the place of a domain is recording under the domain
Tracks-store_sample :
    (domain : Text) (q : ℕ) (sm : Sample) (now : ℕ) (s : Shared) (g : Registry)
    → lookup domain s.sites ≡ some q
    → IsTracked s
    → Tracks s g
    → Tracks (store_sample q sm now s) (record_at domain sm now g)
unfolding store_sample
Tracks-store_sample domain q sm now s g held i t d =
    let v = record_sample sm now (get_or s.stats q new_site) in
    let written = λ (p : ℕ). get_or-set s.stats q p v new_site (i.inside domain q held) in
    let found : lookup domain g.sites ≡ some (get_or s.stats q new_site) =
      t domain ∙ ap (Option.map (λ p. get_or s.stats p new_site)) held in
    elim (Bool-cases (domain == d)) [
      | inl same ↦
          let there : lookup d s.sites ≡ some q = rw (eq_of_beq domain d same) at held in
          rw (lookup-record_at d domain sm now g, same, found, there)
            (ap some (sym ((written q).0 refl)))
      | inr other ↦
          rw (lookup-record_at d domain sm now g, other)
            (t d
              ∙ map-agree (lookup d s.sites) (λ p. get_or s.stats p new_site)
                  (λ p. get_or (set s.stats q v) p new_site)
                  (λ p e.
                    sym ((written p).1 (λ same. ground (arith, i.apart domain d q, beq_refl d)))))
    ]

IsTracked-store_sample :
    (q : ℕ) (sm : Sample) (now : ℕ) (s : Shared) → IsTracked s → IsTracked (store_sample q sm now s)
unfolding store_sample
IsTracked-store_sample q sm now s i = record {
  inside = λ d p e. omega (
    arith,
    i.inside d p e,
    length-set s.stats q (record_sample sm now (get_or s.stats q new_site)),
  );
  apart = i.apart;
}

-- new counters for the domain do not show once a sample is recorded
record_at-grown :
    (domain d : Text) (sm : Sample) (now : ℕ) (g : Registry)
    → lookup domain g.sites ≡ none
    → lookup d (record_at domain sm now (grown_registry domain g)).sites
      ≡ lookup d (record_at domain sm now g).sites
record_at-grown domain d sm now g free = ground (
  arith,
  lookup-record_at d domain sm now (grown_registry domain g),
  lookup-record_at d domain sm now g,
  lookup-insert domain d new_site g.sites,
  lookup-insert domain domain new_site g.sites,
  beq_refl domain,
)

-- what `recordMetric` does in two accesses, with nothing between them
abbrev pub recorded_alone : Text → Sample → ℕ → Shared → Shared
recorded_alone domain sm now s = let (q, s') = track domain s in store_sample q sm now s'

-- `SiteFor` and `Record`, one after the other, record the sample under the domain.
pub Tracks-recorded_alone :
    (domain : Text) (sm : Sample) (now : ℕ) (s : Shared) (g : Registry)
    → IsTracked s
    → Tracks s g
    → IsTracked (recorded_alone domain sm now s)
      × Tracks (recorded_alone domain sm now s) (record_at domain sm now g)
Tracks-recorded_alone domain sm now s g i t = elim (track-cases domain s) [
  | inl (q, held, e) ↦
      rw e (IsTracked-store_sample q sm now s i, Tracks-store_sample domain q sm now s g held i t)
  | inr (free, e) ↦
      let s' = grown domain s in
      let q = length s.stats in
      let i' = IsTracked-grown domain s free i in
      let held : lookup domain s'.sites ≡ some q =
        ground (arith, lookup-insert domain domain q s.sites, beq_refl domain) in
      let missing : lookup domain g.sites ≡ none =
        t domain ∙ ap (Option.map (λ p. get_or s.stats p new_site)) free in
      rw e (
        IsTracked-store_sample q sm now s' i',
        λ d.
            sym (record_at-grown domain d sm now g missing)
            ∙ Tracks-store_sample domain q sm now s' (grown_registry domain g) held i'
                (Tracks-grown domain s g i t) d,
      )
]
