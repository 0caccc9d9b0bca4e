-- ===== src/Program/Overlap/Tests.antt =====
-- Two reloads of the sample disk, with a change of the files between.
use proxy_go.Prelude.{set, drop, Text, nat_eq, text_eq, ◌≡◌, refl, none, List, [], ◌∷◌}
use proxy_go.Text.{codes}
use proxy_go.Dict.{lookup}
use proxy_go.Config.Site.{Site}
use proxy_go.Config.Store.{new_store, lookup_host, replace}
use proxy_go.Program.Overlap.{
  Reload, due, over, read, stored, routed, synced, sites_on, advance_reload, overtaken, torn_lem,
}
use proxy_go.Program.Overlap.Loads.{
  Program, IsFrom, begin, go_on, edit, Changes, no_change, and_then, Loads, IsFrom-Changes,
}
use proxy_go.Program.Overlap.Apart.{IsAgreed, IsAgreed-Changes}
use proxy_go.Proxy.Router.Runtimes.{site_at, last_named}
use proxy_go.Program.Sample.{slash, parse_any, read_site, one_entry, world}
use proxy_go.Program.Reloading.{read_sites}

torn_lem_example :
    (let (r, w') =
        overtaken parse_any
          (λ domains certs. domains)
          (drop 2)
          read_site
          slash
          one_entry
          (codes "s")
          world
          [] in
      (r ≡ over)
      × (w'.disk ≡ [])
      × (lookup_host w'.router.store (codes "b.com")
          ≡ lookup_host
              (replace
                (λ s. s)
                new_store
                (sites_on parse_any
                  (λ domains certs. domains)
                  (drop 2)
                  read_site
                  slash
                  one_entry
                  (codes "s")
                  []))
              (codes "b.com"))
      × (site_at w'.router.heap (lookup (codes "b.com") w'.router.runtimes)
          ≡ last_named parse_any (codes "b.com") none (
              read_sites parse_any
                (λ domains certs. domains)
                (drop 2)
                read_site
                slash
                one_entry
                (codes "s")
                world)))
torn_lem_example =
    torn_lem parse_any (λ domains certs. domains) (drop 2) read_site slash one_entry (codes "s")
      world [] (codes "b.com") (codes "b.com")

-- a reload loads the sites, the files change, and then it changes the store
abbrev idle : Program (List Text)
idle = record { world = world; reloads = [] }

abbrev found : List Site
found =
    sites_on parse_any (λ domains certs. domains) (drop 2) read_site slash one_entry (codes "s")
      world.disk

abbrev stale : Program (List Text)
stale = record {
  world = record world {
    disk = [];
    router = record world.router { store = replace (λ s. s) world.router.store found };
  };
  reloads = stored found ∷ [];
}

abbrev to_stale :
    Changes parse_any
      (λ domains certs. domains)
      (drop 2)
      read_site
      slash
      one_entry
      (codes "s")
      idle
      stale
unfolding advance_reload
to_stale =
    and_then (and_then (and_then (and_then no_change begin) (go_on 0 due refl)) (edit []))
      (go_on 0 (read found) refl)

IsFrom-Changes_example :
    IsFrom parse_any
      (Loads parse_any
        (λ domains certs. domains)
        (drop 2)
        read_site
        slash
        one_entry
        (codes "s")
        to_stale)
      world
      stale.world
IsFrom-Changes_example =
    IsFrom-Changes parse_any (λ domains certs. domains) (drop 2) read_site slash one_entry
      (codes "s") to_stale refl

-- one reload from its beginning to its end, with a change of the files after its load
abbrev then_on : Reload → Program (List Text) → Program (List Text)
then_on r p =
    let (r', now') =
      advance_reload parse_any (λ domains certs. domains) (drop 2) read_site slash one_entry
        (codes "s") r p.world in
    record { world = now'; reloads = set p.reloads 0 r' }

abbrev changed : Program (List Text)
changed = record { world = record world { disk = [] }; reloads = read found ∷ [] }

abbrev mended : Program (List Text)
mended =
    then_on (synced found)
      (then_on (routed found) (then_on (stored found) (then_on (read found) changed)))

abbrev to_mended :
    Changes parse_any
      (λ domains certs. domains)
      (drop 2)
      read_site
      slash
      one_entry
      (codes "s")
      idle
      mended
unfolding advance_reload
to_mended =
    and_then
      (and_then
        (and_then
          (and_then (and_then (and_then (and_then no_change begin) (go_on 0 due refl)) (edit []))
            (go_on 0 (read found) refl))
          (go_on 0 (stored found) refl))
        (go_on 0 (routed found) refl))
      (go_on 0 (synced found) refl)

IsAgreed-Changes_example : IsAgreed parse_any world mended.world
unfolding advance_reload to_mended
IsAgreed-Changes_example =
    IsAgreed-Changes parse_any (λ domains certs. domains) (drop 2) read_site slash one_entry
      (codes "s") to_mended (tt, tt) refl (refl, tt)
