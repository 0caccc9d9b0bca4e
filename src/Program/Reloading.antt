-- ===== src/Program/Reloading.antt =====
-- What holds after a reload of the sites.
use proxy_go.Prelude.{
  if◌then◌else◌, Bool-cases, Option-cases, All, contains, Text, nat_eq, text_eq, beq_refl, ℕ, ◌≡◌,
  refl, ap, ◌∙◌, inl, inr, Bool, true, false, ◌&&◌, ◌||◌, Option, none, some, List, [], ◌∷◌, ◌++◌,
  arith,
}
use proxy_go.Dict.{Dict, lookup, insert, lookup-insert}
use proxy_go.Config.Site.{Site, Url, all_domains}
use proxy_go.Config.Loader.{Entry, Disk, load_sites}
use proxy_go.Config.Store.{lookup_host, replace}
use proxy_go.Proxy.Router.{reload}
use proxy_go.Config.Store.Routing.{lookup_host-replace_iff}
use proxy_go.Proxy.Router.Runtimes.{site_at, is_stored, last_named, site_at-reload}
use proxy_go.Metrics.Registry.{snapshot_all, snapshot_all-prune}
use proxy_go.Program.{World, keep_names, keep_sites, is_kept, reload_world}

-- an enabled site has the name, in that spelling
abbrev pub any_named : Text → List Site → Bool
any_named d [] = false
any_named d (s ∷ sites) = (s.enabled && contains (all_domains s) d) || any_named d sites

abbrev bit : Option Bool → Bool
bit none = false
bit (some b) = b

lookup-keep_names :
    (ds : List Text) (keep : Dict Text Bool) (d : Text)
    → lookup d (keep_names ds keep) ≡ (if contains ds d then some true else lookup d keep)
unfolding keep_names
lookup-keep_names [] keep d = refl
lookup-keep_names (x ∷ ds) keep d =
    ground (arith, lookup-keep_names ds (insert x true keep) d, lookup-insert x d true keep)

bit-keep_sites :
    (sites : List Site) (keep : Dict Text Bool) (d : Text)
    → bit (lookup d (keep_sites sites keep)) ≡ (any_named d sites || bit (lookup d keep))
unfolding keep_sites all_domains
bit-keep_sites [] keep d = refl
bit-keep_sites (s ∷ sites) keep d =
    let named = keep_names (all_domains s) keep in
    let keep' = if s.enabled then insert s.domain true named else keep in
    ground (
      arith,
      bit-keep_sites sites keep' d,
      lookup-insert s.domain d true named,
      lookup-keep_names (all_domains s) keep d,
    )

is_kept_lem : (sites : List Site) (d : Text) → is_kept sites d ≡ any_named d sites
unfolding is_kept lookup
is_kept_lem sites d = elim (Option-cases (lookup d (keep_sites sites []))) [
  | inl missing ↦ ground (arith, bit-keep_sites sites [] d)
  | inr (b, found) ↦ ground (arith, bit-keep_sites sites [] d)
]

last_named-append :
    (parse_url : Text → Option Url) (key : Text) (xs : List Site) (f : Option Site) (ys : List Site)
    → last_named parse_url key f (xs ++ ys)
      ≡ last_named parse_url key (last_named parse_url key f xs) ys
last_named-append parse_url key [] f ys = refl
last_named-append parse_url key (x ∷ xs) f ys = last_named-append parse_url key xs _ ys

-- no other site of the list has the domain among its names
abbrev pub IsAlone : Site → List Site → Type 0
IsAlone s = All (λ q. contains (all_domains q) s.domain ≡ true → q ≡ s)

last_named-IsAlone :
    (parse_url : Text → Option Url) (s : Site) (sites : List Site)
    → IsAlone s sites
    → last_named parse_url s.domain (some s) sites ≡ some s
last_named-IsAlone parse_url s [] h = refl
last_named-IsAlone parse_url s (q ∷ sites) (same, h) =
    elim (Bool-cases (is_stored parse_url q && contains (all_domains q) s.domain)) [
      | inr other ↦ rw other (last_named-IsAlone parse_url s sites h)
      | inl named ↦ rw (named, same (ground arith)) (last_named-IsAlone parse_url s sites h)
    ]

last_named-own :
    (parse_url : Text → Option Url) (s : Site) (f : Option Site)
    → is_stored parse_url s ≡ true
    → (if is_stored parse_url s && contains (all_domains s) s.domain then some s else f) ≡ some s
unfolding all_domains
last_named-own parse_url s f h = ground (arith, h, beq_refl s.domain)

All-after {κ} :
    (P : Site → Type κ) (xs : List Site) (s : Site) (ys : List Site)
    → All P (xs ++ s ∷ ys)
    → All P ys
All-after P [] s ys (p, h) = h
All-after P (x ∷ xs) s ys (p, h) = All-after P xs s ys h

module _ {C : Type 0} (parse_url : Text → Option Url) (manage : List Text → C → C)
    (base : Text → Text) (unmarshal : Text → Option Site) (join : Text → Text → Text)
    (read_dir : Text → Disk → Option (List Entry)) (dir : Text) (w : World C) where
  -- the sites that the reload reads
  abbrev pub read_sites : List Site
  read_sites = (load_sites parse_url base unmarshal join dir (read_dir dir w.disk) w.disk).0

  abbrev pub reloaded : World C
  reloaded = reload_world parse_url manage base unmarshal join read_dir dir w

  -- After a reload the metrics have gone of every domain that no enabled site has as a name, and
  -- those of the others are as they were.
  pub snapshot_all-reload_world :
      (d : Text) (now : ℕ)
      → lookup d (snapshot_all now reloaded.router.registry)
        ≡ (if any_named d read_sites then lookup d (snapshot_all now w.router.registry) else none)
  unfolding reload_world reload
  snapshot_all-reload_world d now =
      snapshot_all-prune d (is_kept read_sites) now w.router.registry
      ∙ ap (λ b. if b then lookup d (snapshot_all now w.router.registry) else none)
          (is_kept_lem read_sites d)

  -- After a reload, a host that is routed to a site is served by the runtime of that site, if its
  -- upstreams parse and no other site has its domain among its names.
  pub site_at-reload_world :
      (host : Text) (s : Site)
      → lookup_host reloaded.router.store host ≡ some s
      → is_stored parse_url s ≡ true
      → IsAlone s read_sites
      → site_at reloaded.router.heap (lookup s.domain reloaded.router.runtimes) ≡ some s
  unfolding reload_world reload
  site_at-reload_world host s routed parses alone =
      let o = (lookup_host-replace_iff (λ q. q) w.router.store read_sites host s).0 routed in
      site_at-reload parse_url read_sites
        (record w.router { store = replace (λ q. q) w.router.store read_sites }) s.domain
      ∙ ap (last_named parse_url s.domain none) o.parts
      ∙ last_named-append parse_url s.domain o.before none (s ∷ o.after)
      ∙ ap (λ f. last_named parse_url s.domain f o.after) (last_named-own parse_url s _ parses)
      ∙ last_named-IsAlone parse_url s o.after
          (All-after _ o.before s o.after (rw o.parts at alone))
