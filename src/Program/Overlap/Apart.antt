-- ===== src/Program/Overlap/Apart.antt =====
-- Reloads that do not overlap: the store and the router are of the same sites.
use proxy_go.Prelude.{
  get_elem?, set, All, All-get_elem?, Text, nat_eq, text_eq, ℕ, zero, suc, ◌≡◌, refl, sym, ap,
  subst, ◌∙◌, ◌⊎◌, inl, inr, Option, some, List, [], ◌∷◌, ◌++◌, arith,
}
use proxy_go.Config.Site.{Site, Url}
use proxy_go.Config.Loader.{Entry, Disk}
use proxy_go.Config.Store.{new_store, replace}
use proxy_go.Program.{World}
use proxy_go.Program.Overlap.{Reload, due, over, read, stored, routed, synced, advance_reload}
use proxy_go.Program.Overlap.Loads.{
  Program, begin, go_on, edit, Changes, no_change, and_then, routing,
}
use proxy_go.Proxy.Router.{reload_sites, reload}

-- all are over but one at most, which has come this far
abbrev IsLone : List Reload → Reload → Type 0
IsLone [] r = r ≡ over
IsLone (x ∷ xs) r = ((x ≡ r) × All (λ q. q ≡ over) xs) ⊎ ((x ≡ over) × IsLone xs r)

IsLone-begin : (xs : List Reload) (r : Reload) → All (λ q. q ≡ over) xs → IsLone (xs ++ r ∷ []) r
IsLone-begin [] r h = inl (refl, tt)
IsLone-begin (x ∷ xs) r (o, h) = inr (o, IsLone-begin xs r h)

IsLone-over : (xs : List Reload) (r : Reload) → All (λ q. q ≡ over) xs → IsLone xs r → r ≡ over
IsLone-over [] r h l = l
IsLone-over (x ∷ xs) r (o, h) (inl (e, rest)) = sym e ∙ o
IsLone-over (x ∷ xs) r (o, h) (inr (e, l)) = IsLone-over xs r h l

set-same : (xs : List Reload) (i : ℕ) (x : Reload) → get_elem? xs i ≡ some x → set xs i x ≡ xs
set-same [] i x e = refl
set-same (y ∷ xs) zero x e = let same : y ≡ x = cc in ap (λ q. q ∷ xs) (sym same)
set-same (y ∷ xs) (suc i) x e = ap (λ q. y ∷ q) (set-same xs i x e)

-- the reload at a place is the one that goes on, or it is over
IsLone-at :
    (xs : List Reload) (i : ℕ) (x r : Reload)
    → get_elem? xs i ≡ some x
    → IsLone xs r
    → ((x ≡ r) × ((y : Reload) → IsLone (set xs i y) y)) ⊎ (x ≡ over)
IsLone-at [] i x r e l = absurd (ground arith)
IsLone-at (z ∷ xs) zero x r e (inl (h, rest)) =
    let same : z ≡ x = cc in inl (sym same ∙ h, λ y. inl (refl, rest))
IsLone-at (z ∷ xs) zero x r e (inr (h, l)) = let same : z ≡ x = cc in inr (sym same ∙ h)
IsLone-at (z ∷ xs) (suc i) x r e (inl (h, rest)) = inr (All-get_elem? (λ q. q ≡ over) xs i x rest e)
IsLone-at (z ∷ xs) (suc i) x r e (inr (h, l)) = elim (IsLone-at xs i x r e l) [
  | inl (same, on) ↦ inl (same, λ y. inr (h, on y))
  | inr done ↦ inr done
]

module _ {C : Type 0} (parse_url : Text → Option Url) where
  -- the store and the runtimes are made of the sites
  pub record IsOf (sites : List Site) (now : World C) : Type 0 where
    pub store : now.router.store ≡ replace (λ s. s) new_store sites
    pub routes : routing now ≡ reload_sites parse_url sites [] []

  -- the store and the runtimes are those of the beginning, or made of the same sites
  abbrev pub IsAgreed : World C → World C → Type 0
  IsAgreed first now =
      ((now.router.store ≡ first.router.store) × (routing now ≡ routing first))
      ⊎ ((sites : List Site) × IsOf sites now)

  -- between the change of the store and that of the router they may differ
  abbrev IsInPhase : World C → Reload → World C → Type 0
  IsInPhase first (stored sites) now = now.router.store ≡ replace (λ s. s) new_store sites
  IsInPhase first _ now = IsAgreed first now

module _ {C : Type 0} (parse_url : Text → Option Url) (manage : List Text → C → C)
    (base : Text → Text) (unmarshal : Text → Option Site) (join : Text → Text → Text)
    (read_dir : Text → Disk → Option (List Entry)) (dir : Text) where
  IsInPhase-advance_reload :
      (r : Reload) (first now : World C)
      → IsInPhase parse_url first r now
      → (let (r', now') = advance_reload parse_url manage base unmarshal join read_dir dir r now in
          IsInPhase parse_url first r' now')
  unfolding advance_reload reload replace
  IsInPhase-advance_reload due first now h = h
  IsInPhase-advance_reload (read sites) first now h = refl
  IsInPhase-advance_reload (stored sites) first now h =
      inr (sites, record { store = h; routes = refl })
  IsInPhase-advance_reload (routed sites) first now (inl h) = inl h
  IsInPhase-advance_reload (routed sites) first now (inr (found, o)) =
      inr (found, record { store = o.store; routes = o.routes })
  IsInPhase-advance_reload (synced sites) first now (inl h) = inl h
  IsInPhase-advance_reload (synced sites) first now (inr (found, o)) =
      inr (found, record { store = o.store; routes = o.routes })
  IsInPhase-advance_reload over first now h = h

  IsAgreed-disk :
      (first now : World C) (disk : Disk)
      → IsAgreed parse_url first now
      → IsAgreed parse_url first (record now { disk = disk })
  IsAgreed-disk first now disk (inl h) = inl h
  IsAgreed-disk first now disk (inr (sites, o)) =
      inr (sites, record { store = o.store; routes = o.routes })

  IsInPhase-disk :
      (r : Reload) (first now : World C) (disk : Disk)
      → IsInPhase parse_url first r now
      → IsInPhase parse_url first r (record now { disk = disk })
  IsInPhase-disk (stored sites) first now disk h = h
  IsInPhase-disk due first now disk h = IsAgreed-disk first now disk h
  IsInPhase-disk (read sites) first now disk h = IsAgreed-disk first now disk h
  IsInPhase-disk (routed sites) first now disk h = IsAgreed-disk first now disk h
  IsInPhase-disk (synced sites) first now disk h = IsAgreed-disk first now disk h
  IsInPhase-disk over first now disk h = IsAgreed-disk first now disk h

  -- a reload begins only when the others are over
  abbrev pub IsApart :
      {p p' : Program C} → Changes parse_url manage base unmarshal join read_dir dir p p' → Type 0
  IsApart no_change = Unit
  IsApart (and_then {p'} run begin) = IsApart run × All (λ q. q ≡ over) p'.reloads
  IsApart (and_then run _) = IsApart run

  record IsCalm (first : World C) (p : Program C) : Type 0 where
    pub stage : Reload
    pub lone : IsLone p.reloads stage
    pub phase : IsInPhase parse_url first stage p.world

  IsAgreed-over :
      (first : World C) (p : Program C)
      → IsCalm first p
      → All (λ q. q ≡ over) p.reloads
      → IsAgreed parse_url first p.world
  IsAgreed-over first p o h =
      subst (λ r. IsInPhase parse_url first r p.world) (IsLone-over p.reloads o.stage h o.lone)
        o.phase

  -- nothing is left to a reload that is over
  IsCalm-over :
      (first : World C) (p : Program C) (i : ℕ)
      → get_elem? p.reloads i ≡ some over
      → IsCalm first p
      → (let (r', now') =
            advance_reload parse_url manage base unmarshal join read_dir dir over p.world in
          IsCalm first (record { world = now'; reloads = set p.reloads i r' }))
  unfolding advance_reload
  IsCalm-over first p i at o = record {
    stage = o.stage;
    lone = subst (λ l. IsLone l o.stage) (sym (set-same p.reloads i over at)) o.lone;
    phase = o.phase;
  }

  IsCalm-go_on :
      (first : World C) (p : Program C) (i : ℕ) (r : Reload)
      → get_elem? p.reloads i ≡ some r
      → IsCalm first p
      → (let (r', now') =
            advance_reload parse_url manage base unmarshal join read_dir dir r p.world in
          IsCalm first (record { world = now'; reloads = set p.reloads i r' }))
  IsCalm-go_on first p i r at o = elim (IsLone-at p.reloads i r o.stage at o.lone) [
    | inl (same, on) ↦ record {
      stage = (advance_reload parse_url manage base unmarshal join read_dir dir r p.world).0;
      lone = on _;
      phase =
          IsInPhase-advance_reload r first p.world
            (subst (λ q. IsInPhase parse_url first q p.world) (sym same) o.phase);
    }
    | inr done ↦
        subst
          (λ q.
            let (r', now') =
              advance_reload parse_url manage base unmarshal join read_dir dir q p.world in
            IsCalm first (record { world = now'; reloads = set p.reloads i r' }))
          (sym done) (IsCalm-over first p i (at ∙ ap some done) o)
  ]

  IsCalm-Changes :
      {p p' : Program C} (run : Changes parse_url manage base unmarshal join read_dir dir p p')
      → IsApart run
      → p.reloads ≡ []
      → IsCalm p.world p'
  IsCalm-Changes {p} no_change apart idle = record {
    stage = over;
    lone = subst (λ l. IsLone l over) (sym idle) refl;
    phase = inl (refl, refl);
  }
  IsCalm-Changes {p} (and_then {p'} run begin) (apart, rest) idle = record {
    stage = due;
    lone = IsLone-begin p'.reloads due rest;
    phase = IsAgreed-over p.world p' (IsCalm-Changes run apart idle) rest;
  }
  IsCalm-Changes {p} (and_then {p'} run (go_on i r at)) apart idle =
      IsCalm-go_on p.world p' i r at (IsCalm-Changes run apart idle)
  IsCalm-Changes {p} (and_then {p'} run (edit disk)) apart idle =
      let o = IsCalm-Changes run apart idle in
      record {
        stage = o.stage;
        lone = o.lone;
        phase = IsInPhase-disk o.stage p.world p'.world disk o.phase;
      }

  -- If a reload begins only when the others are over, then whenever all are over the store and the
  -- runtimes are those of the beginning, or both are made of the same sites, in whatever order the
  -- files change.
  pub IsAgreed-Changes :
      {p p' : Program C} (run : Changes parse_url manage base unmarshal join read_dir dir p p')
      → IsApart run
      → p.reloads ≡ []
      → All (λ q. q ≡ over) p'.reloads
      → IsAgreed parse_url p.world p'.world
  IsAgreed-Changes {p} {p'} run apart idle rest =
      IsAgreed-over p.world p' (IsCalm-Changes run apart idle) rest
