-- ===== src/Config/Store/Domains.antt =====
-- The list of served domains, and hosts that differ in case or port.
use proxy_go.Prelude.{
  if◌then◌else◌, take-append, contains, Text, nat_eq, text_eq, ◌≡◌, sym, ap, ◌∙◌, Bool, true, false,
  ◌||◌, Option, none, some, List, [], ◌∷◌, ◌++◌, arith,
}
use proxy_go.Dict.{keys, lookup, contains-keys}
use proxy_go.Text.{
  to_lower, to_lower_idem, contains-to_lower, last_index-eq-none, last_index-append,
}
use proxy_go.Sort.{IsSorted, sort_by-IsSorted, contains-sort_by, text_le, text_le-total}
use proxy_go.Config.Site.{Site}
use proxy_go.Config.Store.{Store, host_key, domains, lookup_host, replace}
use proxy_go.Config.Store.Routing.{serves, last_serving, lookup-index_sites}

-- some site serves the key
abbrev pub any_serves : {P : Type 0} → (P → Site) → Text → List P → Bool
any_serves deref key [] = false
any_serves deref key (p ∷ ps) = serves (deref p) key || any_serves deref key ps

abbrev is_found : {P : Type 0} → Option P → Bool
is_found none = false
is_found (some _) = true

module _ {P : Type 0} (deref : P → Site) where
  last_serving_found :
      (key : Text) (f : Option P) (ps : List P)
      → is_found (last_serving deref key f ps) ≡ (is_found f || any_serves deref key ps)
  last_serving_found key f [] = ground arith
  last_serving_found key f (p ∷ ps) =
      ground (arith, last_serving_found key (if serves (deref p) key then some p else f) ps)

  -- `Domains` is in order, and lists exactly the lower-cased names of the enabled sites.
  pub domains-replace :
      (s : Store P) (ps : List P) (key : Text)
      → IsSorted text_le (domains (replace deref s ps))
        × (contains (domains (replace deref s ps)) key ≡ any_serves deref key ps)
  unfolding domains replace lookup
  domains-replace s ps key =
      let idx = (replace deref s ps).by_domain in
      (
        sort_by-IsSorted text_le text_le-total (keys idx),
        contains-sort_by text_le (keys idx) key
            ∙ contains-keys key idx
            ∙ ap is_found (lookup-index_sites deref ps [] key)
            ∙ last_serving_found key none ps,
      )

host_key_lem : (host : Text) → contains host b':' ≡ false → host_key host ≡ to_lower host
unfolding host_key
host_key_lem host h = ground (arith, last_index-eq-none host b':')

host_key-append :
    (host port : Text) → contains port b':' ≡ false → host_key (host ++ b':' ∷ port) ≡ to_lower host
unfolding host_key
host_key-append host port p =
    ground (arith, last_index-append host port b':' p, take-append host (b':' ∷ port))

host_key-to_lower :
    (host : Text) → contains host b':' ≡ false → host_key (to_lower host) ≡ host_key host
host_key-to_lower host h =
    host_key_lem (to_lower host) (contains-to_lower host b':' (omega arith) ∙ h)
    ∙ to_lower_idem host
    ∙ sym (host_key_lem host h)

-- The case of the letters and a port make no difference to the lookup.
pub lookup_host-port :
    {P : Type 0} (s : Store P) (host port : Text)
    → contains host b':' ≡ false
    → contains port b':' ≡ false
    → (lookup_host s (host ++ b':' ∷ port) ≡ lookup_host s host)
      × (lookup_host s (to_lower host) ≡ lookup_host s host)
unfolding lookup_host
lookup_host-port s host port h p = (
  ap (λ k. lookup k s.by_domain) (host_key-append host port p ∙ sym (host_key_lem host h)),
  ap (λ k. lookup k s.by_domain) (host_key-to_lower host h),
)
