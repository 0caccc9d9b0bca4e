-- ===== src/Program/Overlap/Loads.antt =====
-- Reloads and changes of the files in any order: what the store and the router hold.
use proxy_go.Prelude.{
  get_elem?, set, All, All-append, All-get_elem?, All-set, All-imply, Text, nat_eq, text_eq, ℕ, ◌≡◌,
  refl, ◌⊎◌, inl, inr, Option, some, List, [], ◌∷◌, ◌++◌,
}
use proxy_go.Dict.{Dict}
use proxy_go.Config.Site.{Site, Url}
use proxy_go.Config.Loader.{Entry, Disk}
use proxy_go.Config.Store.{new_store, replace}
use proxy_go.Program.{World}
use proxy_go.Program.Overlap.{
  Reload, due, over, read, stored, routed, synced, sites_on, advance_reload,
}
use proxy_go.Proxy.Router.{SiteRuntime, reload_sites, reload}

-- the program with the reloads that have begun
pub record Program (C : Type 0) : Type 0 where
  pub world : World C
  pub reloads : List Reload

-- the sites of a reload, while it has them, were loaded
abbrev IsLoadedBy : (List Site → Type 0) → Reload → Type 0
IsLoadedBy L (read sites) = L sites
IsLoadedBy L (stored sites) = L sites
IsLoadedBy L (routed sites) = L sites
IsLoadedBy L _ = Unit

IsLoadedBy-imply :
    (L L' : List Site → Type 0)
    → ((sites : List Site) → L sites → L' sites)
    → (r : Reload) → IsLoadedBy L r
    → IsLoadedBy L' r
IsLoadedBy-imply L L' f (read sites) h = f sites h
IsLoadedBy-imply L L' f (stored sites) h = f sites h
IsLoadedBy-imply L L' f (routed sites) h = f sites h
IsLoadedBy-imply L L' f due h = tt
IsLoadedBy-imply L L' f (synced sites) h = tt
IsLoadedBy-imply L L' f over h = tt

-- the runtimes and the map to them
abbrev pub routing : {C : Type 0} → World C → List SiteRuntime × Dict Text ℕ
routing w = (w.router.heap, w.router.runtimes)

module _ {C : Type 0} (parse_url : Text → Option Url) where
  -- the store, and the runtimes, are what they were at first, or from sites that were loaded
  pub record IsFrom (L : List Site → Type 0) (first now : World C) : Type 0 where
    pub stores :
        (now.router.store ≡ first.router.store)
        ⊎ ((sites : List Site) × L sites × (now.router.store ≡ replace (λ s. s) new_store sites))
    pub routes :
        (routing now ≡ routing first)
        ⊎ ((sites : List Site) × L sites × (routing now ≡ reload_sites parse_url sites [] []))

  IsFrom-imply :
      (L L' : List Site → Type 0)
      → ((sites : List Site) → L sites → L' sites)
      → (first now : World C) → IsFrom L first now
      → IsFrom L' first now
  IsFrom-imply L L' f first now o = record {
    stores = elim o.stores [ inl e ↦ inl e | inr (sites, h, e) ↦ inr (sites, f sites h, e) ];
    routes = elim o.routes [ inl e ↦ inl e | inr (sites, h, e) ↦ inr (sites, f sites h, e) ];
  }

module _ {C : Type 0} (parse_url : Text → Option Url) (manage : List Text → C → C)
    (base : Text → Text) (unmarshal : Text → Option Site) (join : Text → Text → Text)
    (read_dir : Text → Disk → Option (List Entry)) (dir : Text) where
  pub data Change : Program C → Program C → Type 0 where
    begin : {p : Program C} → Change p (record p { reloads = p.reloads ++ due ∷ [] })
    go_on :
        {p : Program C} (i : ℕ) (r : Reload)
        → get_elem? p.reloads i ≡ some r
        → Change p (record {
          world = (advance_reload parse_url manage base unmarshal join read_dir dir r p.world).1;
          reloads =
              set p.reloads i
                (advance_reload parse_url manage base unmarshal join read_dir dir r p.world).0;
        })
    edit :
        {p : Program C} (disk : Disk)
        → Change p (record p { world = record p.world { disk = disk } })

  pub data Changes (p : Program C) : Program C → Type 0 where
    no_change : Changes p p
    and_then : {p' p'' : Program C} → Changes p p' → Change p' p'' → Changes p p''

  -- the files have been these at a time
  abbrev pub IsPast : Disk → {p p' : Program C} → Changes p p' → Type 0
  IsPast disk {p} no_change = disk ≡ p.world.disk
  IsPast disk {p' = p''} (and_then run change) = IsPast disk run ⊎ (disk ≡ p''.world.disk)

  -- the sites were loaded at a time
  abbrev pub IsLoaded : List Site → {p p' : Program C} → Changes p p' → Type 0
  IsLoaded sites run =
      (disk : Disk) × IsPast disk run
      × (sites ≡ sites_on parse_url manage base unmarshal join read_dir dir disk)

  IsFrom-advance_reload :
      (L : List Site → Type 0) (r : Reload) (first now : World C)
      → L (sites_on parse_url manage base unmarshal join read_dir dir now.disk)
      → IsLoadedBy L r
      → IsFrom parse_url L first now
      → (let (r', now') = advance_reload parse_url manage base unmarshal join read_dir dir r now in
          IsLoadedBy L r' × IsFrom parse_url L first now' × (now'.disk ≡ now.disk))
  unfolding advance_reload reload replace
  IsFrom-advance_reload L due first now h l o = (h, o, refl)
  IsFrom-advance_reload L (read sites) first now h l o =
      (l, record { stores = inr (sites, l, refl); routes = o.routes }, refl)
  IsFrom-advance_reload L (stored sites) first now h l o =
      (l, record { stores = o.stores; routes = inr (sites, l, refl) }, refl)
  IsFrom-advance_reload L (routed sites) first now h l o =
      (tt, record { stores = o.stores; routes = o.routes }, refl)
  IsFrom-advance_reload L (synced sites) first now h l o =
      (tt, record { stores = o.stores; routes = o.routes }, refl)
  IsFrom-advance_reload L over first now h l o = (tt, o, refl)

  abbrev pub Loads : {p p' : Program C} → Changes p p' → List Site → Type 0
  Loads run sites = IsLoaded sites run

  record IsWhole {p p' : Program C} (run : Changes p p') : Type 0 where
    pub reloads : All (IsLoadedBy (Loads run)) p'.reloads
    pub parts : IsFrom parse_url (Loads run) p.world p'.world
    pub present : IsPast p'.world.disk run

  IsLoaded-later :
      {p p' p'' : Program C} (run : Changes p p') (change : Change p' p'') (sites : List Site)
      → IsLoaded sites run
      → IsLoaded sites (and_then run change)
  IsLoaded-later run change sites (disk, past, e) = (disk, inl past, e)

  -- a change adds to what has been loaded
  later_lem :
      {p p' p'' : Program C} (run : Changes p p') (change : Change p' p'')
      → IsWhole run
      → All (IsLoadedBy (Loads (and_then run change))) p'.reloads
        × IsFrom parse_url (Loads (and_then run change)) p.world p'.world
  later_lem {p} {p'} run change o =
      let L = Loads run in
      let L' = Loads (and_then run change) in
      (
        All-imply (IsLoadedBy L) (IsLoadedBy L') p'.reloads
            (λ r. IsLoadedBy-imply L L' (IsLoaded-later run change) r) o.reloads,
        IsFrom-imply parse_url L L' (IsLoaded-later run change) p.world p'.world o.parts,
      )

  IsWhole-and_then :
      {p p' p'' : Program C} (run : Changes p p') (change : Change p' p'')
      → IsWhole run
      → IsWhole (and_then run change)
  IsWhole-and_then {p} {p'} run begin o =
      let (reloads, parts) = later_lem run begin o in
      record {
        reloads = All-append _ p'.reloads (due ∷ []) reloads (tt, tt);
        parts = parts;
        present = inr refl;
      }
  IsWhole-and_then {p} {p'} run (go_on i r at) o =
      let change : Change p' _ = go_on i r at in
      let (reloads, parts) = later_lem run change o in
      let L = Loads (and_then run change) in
      let was = All-get_elem? (IsLoadedBy L) p'.reloads i r reloads at in
      let (stage, parts', same) =
        IsFrom-advance_reload L r p.world p'.world (p'.world.disk, inl o.present, refl) was parts in
      record {
        reloads = All-set (IsLoadedBy L) p'.reloads i _ reloads stage;
        parts = parts';
        present = inr refl;
      }
  IsWhole-and_then run (edit disk) o =
      let (reloads, parts) = later_lem run (edit disk) o in
      record {
        reloads = reloads;
        parts = record { stores = parts.stores; routes = parts.routes };
        present = inr refl;
      }

  IsWhole-Changes :
      {p : Program C} → p.reloads ≡ [] → {p' : Program C} (run : Changes p p') → IsWhole run
  IsWhole-Changes {p} idle no_change = record {
    reloads = rw idle tt;
    parts = record { stores = inl refl; routes = inl refl };
    present = refl;
  }
  IsWhole-Changes idle (and_then run change) =
      IsWhole-and_then run change (IsWhole-Changes idle run)

  -- Reloads that begin at any time, with their calls and changes of the files in any order, never mix
  -- two loads in the store, nor in the router: the store is that of the beginning or the one that
  -- `Replace` makes of one load of the files as they were at a time, and the runtimes are those of the
  -- beginning or the ones that `Reload` makes of one such load.
  pub IsFrom-Changes :
      {p p' : Program C} (run : Changes p p')
      → p.reloads ≡ []
      → IsFrom parse_url (Loads run) p.world p'.world
  IsFrom-Changes run idle = (IsWhole-Changes idle run).parts
