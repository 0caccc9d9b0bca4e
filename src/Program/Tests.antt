-- ===== src/Program/Tests.antt =====
-- The start and the reloads on the sample disk.
use proxy_go.Prelude.{
  if◌then◌else◌, length, is_empty, drop, replicate, ◌==◌, Text, text_beq, nat_eq, text_eq, beq_refl,
  ◌≤◌, ◌≡◌, refl, sym, ap, ◌≢◌, true, false, none, some, List, [], ◌∷◌, ◌++◌, map, arith,
}
use proxy_go.Text.{codes, to_lower, trim_space, has_suffix, contains_text, last_index}
use proxy_go.Dict.{lookup, insert}
use proxy_go.Sort.{sort_by}
use proxy_go.Config.Site.{Site, all_domains, split_host_port, valid_upstream, validate}
use proxy_go.Program.Main.{parsed, serves, run_main, run_main_sound}
use proxy_go.Config.Loader.{Global, load_global, load_sites}
use proxy_go.Config.Store.{new_store, host_key, lookup_host, snapshot, replace}
use proxy_go.Metrics.Registry.{new_registry, snapshot_all}
use proxy_go.Proxy.Pool.{new_pool}
use proxy_go.Proxy.Router.{new_router, reload}
use proxy_go.Proxy.Router.Runtimes.{site_at}
use proxy_go.Auth.{
  Crypto, Admin, ok, KeyFile, resolve_secret, new_manager, hash_password, verify_password,
}
use proxy_go.Acme.{sync_domains, domains_from_sites}
use proxy_go.Ui.Types.{deref, trigger_reload}
use proxy_go.Ui.Sample.{site_of, server, state}
use proxy_go.Program.Interface.{deref_opt, trigger_reload-reload_world}
use proxy_go.Program.{World, Started, Flags, ready, command, cmd_hash, reload_world, cmd_serve}
use proxy_go.Program.Reloading.{
  any_named, read_sites, snapshot_all-reload_world, site_at-reload_world,
}
use proxy_go.Program.Starting.{cmd_serve_sound}
use proxy_go.Program.Hashing.{verify_password-cmd_hash}
use proxy_go.Program.Sample.{slash, parse_any, read_site, one_entry, world}
use proxy_go.Acme.{new_manager as new_acme}

abbrev after : World (List Text)
after =
    reload_world parse_any (λ domains certs. domains) (drop 2) read_site slash one_entry (codes "s")
      world

abbrev blog : Site
blog = record (site_of (codes "b.com")) { filename = codes "b.com.yml" }

certs_test : after.certs ≡ codes "b.com" ∷ []
unfolding reload_world sync_domains domains_from_sites load_sites sort_by has_suffix text_beq lookup
    validate trim_space valid_upstream contains_text split_host_port last_index
certs_test = refl

routed_test : lookup_host after.router.store (codes "B.com:443") ≡ some blog
unfolding lookup_host lookup reload_world reload replace load_sites sort_by has_suffix text_beq
    validate trim_space valid_upstream contains_text split_host_port last_index all_domains insert
    host_key to_lower new_pool
routed_test = refl

snapshot_all-reload_world_example :
    lookup (codes "old.com") (snapshot_all 9 after.router.registry) ≡ (
      if any_named (codes "old.com") (
        read_sites parse_any
          (λ domains certs. domains)
          (drop 2)
          read_site
          slash
          one_entry
          (codes "s")
          world)
      then lookup (codes "old.com") (snapshot_all 9 world.router.registry)
      else none)
snapshot_all-reload_world_example =
    snapshot_all-reload_world parse_any (λ domains certs. domains) (drop 2) read_site slash
      one_entry (codes "s") world (codes "old.com") 9

site_at-reload_world_example :
    site_at after.router.heap (lookup (codes "b.com") after.router.runtimes) ≡ some blog
unfolding new_pool contains_text load_sites sort_by has_suffix text_beq lookup validate trim_space
    valid_upstream split_host_port last_index
site_at-reload_world_example =
    site_at-reload_world parse_any (λ domains certs. domains) (drop 2) read_site slash one_entry
      (codes "s") world (codes "B.com:443") blog routed_test refl ((λ h. refl), tt)

abbrev config : Global
config = record {
  admin_addr = [];
  admins = record { username = codes "alice"; password_hash = codes "pw" } ∷ [];
  session_secret = [];
  acme_email = codes "a@b.com";
  acme_directory = [];
  http_addr = codes ":8080";
  https_addr = [];
  trust_forwarded_headers = true;
}

abbrev flags : Flags
flags = record { data_dir = codes "d"; sites_dir = []; certs_dir = codes "c" }

abbrev key : KeyFile
key = record { stored = none; random = some (replicate 48 7); writable = true }

abbrev running : Started
running = record {
  global = record config { admin_addr = codes "127.0.0.1:8090"; https_addr = codes ":443" };
  manager = record { admins = (codes "alice", codes "pw") ∷ []; secret = replicate 48 7 };
  acme = record { email = codes "a@b.com"; dir = []; certs_path = codes "c" };
  router = new_router new_store new_registry true;
}

started_test :
    cmd_serve slash (λ d. d) (λ d. true) (λ b. some config) flags key world.disk ≡ ready running
unfolding cmd_serve load_global lookup text_beq new_manager resolve_secret insert to_lower new_acme
started_test = refl

random_test : (b : Text) → key.random ≡ some b → length b ≡ 48
random_test b e = sym (ap (λ o. elim o [ none ↦ 48 | some x ↦ length x ]) e)

cmd_serve_sound_test :
    (running.global.admin_addr ≢ [])
    × (running.global.http_addr ≢ [])
    × (running.global.https_addr ≢ [])
    × (running.acme.email ≢ [])
    × (32 ≤ length running.manager.secret)
cmd_serve_sound_test =
    cmd_serve_sound slash (λ d. d) (λ d. true) (λ b. some config) flags key world.disk running
      random_test started_test

-- the disk of the sample of the admin interface
abbrev sample_world : World (List Text)
sample_world = record world { disk = state.disk }

trigger_reload-reload_world_test :
    (let st' = trigger_reload server state in
      let w' =
        reload_world server.parse_url
          (λ domains certs. domains)
          server.base
          server.unmarshal
          server.join
          server.read_dir
          server.sites_dir
          sample_world in
      (deref_opt st'.heap (lookup_host st'.store (codes "b.com"))
        ≡ lookup_host w'.router.store (codes "b.com"))
      × (map (deref st'.heap) (snapshot st'.store) ≡ snapshot w'.router.store)
      × (deref st'.heap 0 ≡ blog))
trigger_reload-reload_world_test =
    trigger_reload-reload_world (λ domains certs. domains) server state sample_world (codes "b.com")
      0 refl refl (omega arith)

abbrev compare : Crypto
compare = record {
  hmac = λ key payload. key ++ payload;
  bcrypt_ok = λ h password. h == password;
  encode = λ s. s;
  decode = λ s. some s;
  decode-encode = λ s. refl;
}

abbrev one_admin : List Admin
one_admin = record { username = codes "Alice"; password_hash = codes "pw" } ∷ []

hashed_test : cmd_hash (hash_password (λ cost pw. some pw)) (codes "pw" ∷ []) ≡ (0, codes "pw")
unfolding cmd_hash hash_password
hashed_test = refl

manager_test :
    new_manager one_admin (replicate 48 7) key
    ≡ ok (record { admins = (codes "alice", codes "pw") ∷ []; secret = replicate 48 7 })
unfolding new_manager resolve_secret insert to_lower
manager_test = refl

verify_password-cmd_hash_example :
    (pw : Text) × (codes "pw" ∷ [] ≡ pw ∷ [])
    × (is_empty pw ≡ false)
    × (verify_password compare (codes "ALICE") pw running.manager ≡ none)
unfolding to_lower text_beq
verify_password-cmd_hash_example =
    verify_password-cmd_hash compare (λ cost pw. some pw) (codes "pw" ∷ []) (codes "pw") one_admin
      (replicate 48 7) key running.manager (codes "ALICE") (λ pw h e. ground (arith, e, beq_refl h))
      hashed_test manager_test refl

main_test :
    run_main slash
      (λ d. d)
      (λ d. true)
      (λ b. some config)
      (λ rest. parsed flags)
      true
      (λ pw. some pw)
      (codes "serve" ∷ codes "--data" ∷ codes "d" ∷ [])
      key
      world.disk
    ≡ serves running
unfolding run_main cmd_serve command load_global lookup text_beq new_manager resolve_secret insert
    to_lower new_acme
main_test = refl

run_main_sound_example :
    (rest : List Text) × (f : Flags) × (codes "serve" ∷ codes "--data" ∷ codes "d" ∷ []
      ≡ codes "serve" ∷ rest)
    × (parsed flags ≡ parsed f)
    × (running.global.admin_addr ≢ [])
    × (running.global.http_addr ≢ [])
    × (running.global.https_addr ≢ [])
    × (running.acme.email ≢ [])
    × (32 ≤ length running.manager.secret)
run_main_sound_example =
    run_main_sound slash (λ d. d) (λ d. true) (λ b. some config) (λ rest. parsed flags) true
      (λ pw. some pw) (codes "serve" ∷ codes "--data" ∷ codes "d" ∷ []) key world.disk running
      random_test main_test
