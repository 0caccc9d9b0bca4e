-- ===== src/Config/Store.antt =====
-- internal/config/config.go: `Store`, the in-memory list of sites with its index by domain. The
-- mutex makes each method one step. A site is reached through a pointer: `P` is the type of the
-- pointers and `deref` reads one.
pub mod Routing
pub mod Domains
mod Tests
use proxy_go.Prelude.{if◌then◌else◌, take, Text, nat_eq, text_eq, Option, none, some, List, [], ◌∷◌}
use proxy_go.Dict.{Dict, keys, lookup, insert}
use proxy_go.Text.{to_lower, last_index}
use proxy_go.Sort.{sort_by, text_le}
use proxy_go.Config.Site.{Site, all_domains}

pub record Store (P : Type 0) : Type 0 where
  pub sites : List P
  pub by_domain : Dict Text P

abbrev pub new_store : {P : Type 0} → Store P
new_store = record { sites = []; by_domain = [] }

-- The host without its last ":" and what follows, in lower case.
unfoldable pub host_key : Text → Text
host_key host = to_lower (elim (last_index host b':') [ none ↦ host | some i ↦ take i host ])

module _ {P : Type 0} where
  -- the inner loop of `Replace`
  index_domains : P → List Text → Dict Text P → Dict Text P
  index_domains p [] idx = idx
  index_domains p (d ∷ ds) idx = index_domains p ds (insert (to_lower d) p idx)

  -- `none` is the `false` of the second result
  unfoldable pub lookup_host : Store P → Text → Option P
  lookup_host s host = lookup (host_key host) s.by_domain

  unfoldable pub snapshot : Store P → List P
  snapshot s = s.sites

  unfoldable pub domains : Store P → List Text
  domains s = sort_by text_le (keys s.by_domain)

  module _ (deref : P → Site) where
    -- the outer loop of `Replace`
    pub index_sites : List P → Dict Text P → Dict Text P
    unfolding index_domains
    index_sites [] idx = idx
    index_sites (p ∷ ps) idx =
        index_sites ps
          (if (deref p).enabled then index_domains p (all_domains (deref p)) idx else idx)

    unfoldable pub replace : Store P → List P → Store P
    unfolding index_sites
    replace s ps = record { sites = ps; by_domain = index_sites ps [] }
