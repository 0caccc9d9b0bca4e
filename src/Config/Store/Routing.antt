-- ===== src/Config/Store/Routing.antt =====
-- Which site a host is routed to.
use proxy_go.Prelude.{
  if◌then◌else◌, Bool-cases, All, contains, Text, nat_eq, text_eq, ◌≡◌, refl, ap, ◌∙◌, ◌↔◌, ◌⊎◌,
  inl, inr, Bool, true, false, ◌&&◌, Option, none, some, List, [], ◌∷◌, ◌++◌, map, arith,
}
use proxy_go.Dict.{Dict, lookup, insert, lookup-insert}
use proxy_go.Text.{to_lower}
use proxy_go.Config.Site.{Site, all_domains}
use proxy_go.Config.Store.{Store, host_key, index_domains, index_sites, lookup_host, replace}

-- the lower-cased names among which a key is searched
abbrev pub served_names : Site → List Text
served_names s = map to_lower (all_domains s)

abbrev pub serves : Site → Text → Bool
serves s key = s.enabled && contains (served_names s) key

lookup-index_domains :
    {P : Type 0} (p : P) (ds : List Text) (idx : Dict Text P) (key : Text)
    → lookup key (index_domains p ds idx)
      ≡ (if contains (map to_lower ds) key then some p else lookup key idx)
unfolding index_domains
lookup-index_domains p [] idx key = refl
lookup-index_domains p (d ∷ ds) idx key = ground (
  arith,
  lookup-index_domains p ds (insert (to_lower d) p idx) key,
  lookup-insert (to_lower d) key p idx,
)

module _ {P : Type 0} (deref : P → Site) where
  -- the last site of the list that serves the key
  abbrev pub last_serving : Text → Option P → List P → Option P
  last_serving key found [] = found
  last_serving key found (p ∷ ps) =
      last_serving key (if serves (deref p) key then some p else found) ps

  pub lookup-index_sites :
      (ps : List P) (idx : Dict Text P) (key : Text)
      → lookup key (index_sites deref ps idx) ≡ last_serving key (lookup key idx) ps
  unfolding index_sites
  lookup-index_sites [] idx key = refl
  lookup-index_sites (p ∷ ps) idx key =
      let idx' = if (deref p).enabled then index_domains p (all_domains (deref p)) idx else idx in
      let step : lookup key idx' ≡ (if serves (deref p) key then some p else lookup key idx) =
        ground (arith, lookup-index_domains p (all_domains (deref p)) idx key) in
      lookup-index_sites ps idx' key ∙ ap (λ f. last_serving key f ps) step

  -- `p` stands in the list, serves the key, and no later site does
  pub record IsOwner (key : Text) (ps : List P) (p : P) : Type 0 where
    pub before : List P
    pub after : List P
    pub parts : ps ≡ before ++ p ∷ after
    pub serving : serves (deref p) key ≡ true
    pub last : All (λ q. serves (deref q) key ≡ false) after

  abbrev pub NoneServes : Text → List P → Type 0
  NoneServes key ps = All (λ q. serves (deref q) key ≡ false) ps

  last_serving_skip :
      (key : Text) (f : Option P) (ps : List P) → NoneServes key ps → last_serving key f ps ≡ f
  last_serving_skip key f [] h = refl
  last_serving_skip key f (q ∷ ps) (silent, h) = rw silent (last_serving_skip key f ps h)

  last_serving-append :
      (key : Text) (f : Option P) (ps qs : List P)
      → last_serving key f (ps ++ qs) ≡ last_serving key (last_serving key f ps) qs
  last_serving-append key f [] qs = refl
  last_serving-append key f (p ∷ ps) qs =
      last_serving-append key (if serves (deref p) key then some p else f) ps qs

  last_serving_of_IsOwner :
      (key : Text) (ps : List P) (p : P) → IsOwner key ps p → last_serving key none ps ≡ some p
  last_serving_of_IsOwner key ps p o =
      let f = last_serving key none o.before in
      let chosen : last_serving key f (p ∷ o.after) ≡ some p =
        rw o.serving (last_serving_skip key (some p) o.after o.last) in
      ap (last_serving key none) o.parts
      ∙ last_serving-append key none o.before (p ∷ o.after)
      ∙ chosen

  IsOwner-cons :
      {key : Text} {ps : List P} {p : P} (q : P) → IsOwner key ps p → IsOwner key (q ∷ ps) p
  IsOwner-cons q o = record {
    before = q ∷ o.before;
    after = o.after;
    parts = ap (λ l. q ∷ l) o.parts;
    serving = o.serving;
    last = o.last;
  }

  -- The result is the last serving site, or what was found before if no site serves.
  last_serving_sound :
      (key : Text) (f : Option P) (ps : List P)
      → ((p : P) × IsOwner key ps p × (last_serving key f ps ≡ some p))
        ⊎ (NoneServes key ps × (last_serving key f ps ≡ f))
  last_serving_sound key f [] = inr (tt, refl)
  last_serving_sound key f (q ∷ ps) =
      step (Bool-cases (serves (deref q) key))
        (last_serving_sound key (if serves (deref q) key then some q else f) ps)
    where
      step :
          (serves (deref q) key ≡ true) ⊎ (serves (deref q) key ≡ false)
          → ((p : P) × IsOwner key ps p
              × (last_serving key (if serves (deref q) key then some q else f) ps ≡ some p))
            ⊎ (NoneServes key ps
                × (last_serving key (if serves (deref q) key then some q else f) ps
                    ≡ (if serves (deref q) key then some q else f)))
          → ((p : P) × IsOwner key (q ∷ ps) p × (last_serving key f (q ∷ ps) ≡ some p))
            ⊎ (NoneServes key (q ∷ ps) × (last_serving key f (q ∷ ps) ≡ f))
      step c (inl (p, o, e)) = inl (p, IsOwner-cons q o, e)
      step (inl here) (inr (silent, e)) = inl (
        q,
        record { before = []; after = ps; parts = refl; serving = here; last = silent },
        ground arith,
      )
      step (inr other) (inr (silent, e)) = inr ((other, silent), ground arith)

  pub lookup_host-replace_eq :
      (s : Store P) (ps : List P) (host : Text)
      → lookup_host (replace deref s ps) host ≡ last_serving (host_key host) none ps
  unfolding lookup_host replace lookup
  lookup_host-replace_eq s ps host = lookup-index_sites ps [] (host_key host)

  -- After `Replace` a host is routed to a site exactly when that site is the last one of the list
  -- that is enabled and has the host's key among its lower-cased names.
  pub lookup_host-replace_iff :
      (s : Store P) (ps : List P) (host : Text) (p : P)
      → (lookup_host (replace deref s ps) host ≡ some p) ↔ IsOwner (host_key host) ps p
  lookup_host-replace_iff s ps host p = rw lookup_host-replace_eq (
    to (last_serving_sound (host_key host) none ps),
    last_serving_of_IsOwner (host_key host) ps p,
  )
    where
      to :
          ((q : P) × IsOwner (host_key host) ps q × (last_serving (host_key host) none ps ≡ some q))
            ⊎ (NoneServes (host_key host) ps × (last_serving (host_key host) none ps ≡ none))
          → last_serving (host_key host) none ps ≡ some p
          → IsOwner (host_key host) ps p
      to (inl (q, o, e)) h = let same : q ≡ p = cc in rw (← same) o
      to (inr (_, e)) h = absurd (cc)

  -- No site is found exactly when no enabled site has the key.
  pub lookup_host-replace-none_iff :
      (s : Store P) (ps : List P) (host : Text)
      → (lookup_host (replace deref s ps) host ≡ none) ↔ NoneServes (host_key host) ps
  lookup_host-replace-none_iff s ps host =
      rw lookup_host-replace_eq
        (to (last_serving_sound (host_key host) none ps), last_serving_skip (host_key host) none ps)
    where
      to :
          ((q : P) × IsOwner (host_key host) ps q × (last_serving (host_key host) none ps ≡ some q))
            ⊎ (NoneServes (host_key host) ps × (last_serving (host_key host) none ps ≡ none))
          → last_serving (host_key host) none ps ≡ none
          → NoneServes (host_key host) ps
      to (inl (q, o, e)) h = absurd (cc)
      to (inr (silent, _)) h = silent
