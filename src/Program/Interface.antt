-- ===== src/Program/Interface.antt =====
-- The reload that the admin interface asks for routes as the watcher's reload does.
use proxy_go.Prelude.{
  if◌then◌else◌, length, length-append, get_or-append_new, get_or-append_old, Text, nat_eq, text_eq,
  ℕ, suc, ◌<◌, ◌≡◌, refl, sym, ap, ◌∙◌, true, Option, none, some, List, [], ◌∷◌, ◌++◌, map, arith,
}
use proxy_go.Config.Site.{Site}
use proxy_go.Config.Store.{Store, host_key, lookup_host, snapshot, replace}
use proxy_go.Config.Store.Routing.{serves, last_serving, lookup_host-replace_eq}
use proxy_go.Config.Loader.{load_sites}
use proxy_go.Ui.Form.{blank_site}
use proxy_go.Ui.Types.{State, Server, deref, places, trigger_reload}
use proxy_go.Proxy.Router.{reload}
use proxy_go.Program.{World, reload_world}
use mathlib.Core.List.{append_assoc}

-- the option of a place, read from the heap
abbrev pub deref_opt : List Site → Option ℕ → Option Site
deref_opt heap none = none
deref_opt heap (some p) = some (deref heap p)

-- the new places hold the sites that were read
map-places :
    (heap sites : List Site) → map (deref (heap ++ sites)) (places (length heap) sites) ≡ sites
map-places heap [] = refl
map-places heap (s ∷ sites) =
    let longer = heap ++ s ∷ [] in
    let grown : length longer ≡ suc (length heap) = omega (arith, length-append heap (s ∷ [])) in
    let rest : map (deref (heap ++ s ∷ sites)) (places (suc (length heap)) sites) ≡ sites =
      rw (append_assoc heap (s ∷ []) sites, grown) at (map-places longer sites) in
    ap (λ x. x ∷ map (deref (heap ++ s ∷ sites)) (places (suc (length heap)) sites))
      (get_or-append_new heap s sites blank_site)
    ∙ ap (λ r. s ∷ r) rest

module _ (heap : List Site) where
  -- a routing by places is the routing by the sites that stand there
  last_serving-deref :
      (key : Text) (f : Option ℕ) (ps : List ℕ)
      → deref_opt heap (last_serving (deref heap) key f ps)
        ≡ last_serving (λ s. s) key (deref_opt heap f) (map (deref heap) ps)
  last_serving-deref key f [] = refl
  last_serving-deref key f (p ∷ ps) =
      let served = serves (deref heap p) key in
      let step : deref_opt heap (if served then some p else f)
          ≡ (if served then some (deref heap p) else deref_opt heap f) =
        ground arith in
      last_serving-deref key (if served then some p else f) ps
      ∙ ap (λ g. last_serving (λ s. s) key g (map (deref heap) ps)) step

-- the store of the new places routes as a store of the sites themselves
lookup_host-places :
    (heap sites : List Site) (a : Store ℕ) (b : Store Site) (host : Text)
    → deref_opt
        (heap ++ sites)
        (lookup_host (replace (deref (heap ++ sites)) a (places (length heap) sites)) host)
      ≡ lookup_host (replace (λ s. s) b sites) host
lookup_host-places heap sites a b host =
    let new = heap ++ sites in
    ap (deref_opt new) (lookup_host-replace_eq (deref new) a (places (length heap) sites) host)
    ∙ last_serving-deref new (host_key host) none (places (length heap) sites)
    ∙ ap (last_serving (λ s. s) (host_key host) none) (map-places heap sites)
    ∙ sym (lookup_host-replace_eq (λ s. s) b sites host)

module _ {C W : Type 0} (manage : List Text → C → C) (srv : Server W) where
  -- After a reload that the interface asks for, if it has a callback, every host is routed to the site
  -- to which the watcher's reload of the same disk routes it, the sites are listed in the same order,
  -- and whoever still has a place from before finds the same site there.
  pub trigger_reload-reload_world :
      (st : State W) (w : World C) (host : Text) (p : ℕ)
      → srv.has_callback ≡ true
      → st.disk ≡ w.disk
      → p < length st.heap
      → (let st' = trigger_reload srv st in
          let w' =
            reload_world srv.parse_url manage srv.base srv.unmarshal srv.join srv.read_dir
              srv.sites_dir w in
          (deref_opt st'.heap (lookup_host st'.store host) ≡ lookup_host w'.router.store host)
          × (map (deref st'.heap) (snapshot st'.store) ≡ snapshot w'.router.store)
          × (deref st'.heap p ≡ deref st.heap p))
  unfolding trigger_reload reload_world reload replace snapshot
  trigger_reload-reload_world st w host p calls same old =
      let sites =
        (load_sites srv.parse_url srv.base srv.unmarshal srv.join srv.sites_dir
          (srv.read_dir srv.sites_dir w.disk) w.disk).0 in
      rw (calls, same)
        (
          lookup_host-places st.heap sites st.store w.router.store host,
          map-places st.heap sites,
          get_or-append_old st.heap sites p blank_site old,
        )
