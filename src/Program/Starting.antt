-- ===== src/Program/Starting.antt =====
-- What a server that has started has been given.
use proxy_go.Text.{codes}
use proxy_go.Prelude.{
  Bool-cases, Option-cases, length, is_empty, is_empty_iff, Text, nat_eq, text_eq, ◌≤◌, ◌≡◌, ap,
  ◌≢◌, inl, inr, Bool, Option, some, [], ◌∷◌, arith,
}
use proxy_go.Dict.{lookup}
use proxy_go.Config.Loader.{
  Global, Loaded, loaded, failed, or_default, apply_defaults, Disk, load_global,
}
use proxy_go.Auth.{Manager, Result, ok, err, KeyFile, new_manager}
use proxy_go.Auth.Secret.{length-new_manager}
use proxy_go.Acme.{Manager as AcmeManager, new_manager as new_acme}
use proxy_go.Program.{
  Started, Flags, ready, make_dirs, with_manager, with_global, sites_dir_of, certs_dir_of,
  cmd_serve,
}

new_acme_email :
    (clean : Text → Text) (certs_dir email directory : Text) (a : AcmeManager)
    → new_acme clean certs_dir email directory ≡ some a
    → a.email ≢ []
unfolding new_acme
new_acme_email clean certs_dir email directory a h e = ground (arith, is_empty_iff email)

with_manager_sound :
    (clean : Text → Text) (certs_dir : Text) (g : Global) (m : Result Manager) (st : Started)
    → with_manager clean certs_dir g m ≡ ready st
    → (g ≡ st.global) × (m ≡ ok st.manager) × (st.acme.email ≢ [])
unfolding with_manager
with_manager_sound clean certs_dir g (err e) st h = absurd (ground arith)
with_manager_sound clean certs_dir g (ok m) st h =
    elim (Option-cases (new_acme clean certs_dir g.acme_email g.acme_directory)) [
      | inl missing ↦ absurd (ground arith)
      | inr (a, made) ↦
          let same : a ≡ st.acme = ground arith in
          (
            ground arith,
            ground arith,
            rw same at (new_acme_email clean certs_dir g.acme_email g.acme_directory a made),
          )
    ]

with_global_sound :
    (clean : Text → Text) (certs_dir : Text) (key : KeyFile) (l : Loaded Global) (st : Started)
    → with_global clean certs_dir key l ≡ ready st
    → (l ≡ loaded st.global)
      × (new_manager st.global.admins st.global.session_secret key ≡ ok st.manager)
      × (st.acme.email ≢ [])
unfolding with_global
with_global_sound clean certs_dir key (failed e) st h = absurd (ground arith)
with_global_sound clean certs_dir key (loaded g) st h =
    let (same, made, email) = with_manager_sound clean certs_dir g _ st h in
    (ap loaded same, rw same at made, email)

or_default-given : (s d : Text) → d ≢ [] → or_default s d ≢ []
unfolding or_default
or_default-given s d ne e = elim (Bool-cases (is_empty s)) [
  | inl empty ↦ ne (ground arith)
  | inr given ↦ ground (arith, is_empty_iff s)
]

load_global_addresses :
    (unmarshal : Text → Option Global) (path : Text) (disk : Disk) (g : Global)
    → load_global unmarshal path disk ≡ loaded g
    → (g.admin_addr ≢ []) × (g.http_addr ≢ []) × (g.https_addr ≢ [])
unfolding load_global apply_defaults
load_global_addresses unmarshal path disk g h = elim (Option-cases (lookup path disk)) [
  | inl missing ↦ absurd (ground arith)
  | inr (b, found) ↦ elim (Option-cases (unmarshal b)) [
    | inl bad ↦ absurd (ground arith)
    | inr (raw, read) ↦
        let same : apply_defaults raw ≡ g = ground arith in
        rw (← same) (
          or_default-given raw.admin_addr _ (λ e. ground (arith, e)),
          or_default-given raw.http_addr _ (λ e. ground (arith, e)),
          or_default-given raw.https_addr _ (λ e. ground (arith, e)),
        )
  ]
]

-- A server that starts has addresses to listen on, an address for the certificates' account, and,
-- if the random source gives the 48 bytes that are asked of it, a secret of 32 bytes or more.
pub cmd_serve_sound :
    (join : Text → Text → Text) (clean : Text → Text) (mkdir : Text → Bool)
    (unmarshal : Text → Option Global) (f : Flags) (key : KeyFile) (disk : Disk) (st : Started)
    → ((b : Text) → key.random ≡ some b → length b ≡ 48)
    → cmd_serve join clean mkdir unmarshal f key disk ≡ ready st
    → (st.global.admin_addr ≢ [])
      × (st.global.http_addr ≢ [])
      × (st.global.https_addr ≢ [])
      × (st.acme.email ≢ [])
      × (32 ≤ length st.manager.secret)
unfolding cmd_serve
cmd_serve_sound join clean mkdir unmarshal f key disk st rand h =
    elim (Option-cases
      (make_dirs mkdir (f.data_dir ∷ sites_dir_of join f ∷ certs_dir_of join f ∷ []))) [
        | inr (d, bad) ↦ absurd (ground arith)
        | inl made ↦
            let config = load_global unmarshal (join f.data_dir (codes "config.yml")) disk in
            let passed : with_global clean (certs_dir_of join f) key config ≡ ready st =
              ground arith in
            let (read, manager, email) =
              with_global_sound clean (certs_dir_of join f) key config st passed in
            let (admin, http, https) = load_global_addresses unmarshal _ disk st.global read in
            (admin, http, https, email, length-new_manager _ _ key st.manager rand manager)
      ]
