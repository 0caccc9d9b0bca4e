-- ===== src/Program/Main.antt =====
-- cmd/jobcloud/main.go: `main` with `cmdServe`, as far as it decides whether the program ends or serves.
use proxy_go.Prelude.{
  if◌then◌else◌, Bool-cases, length, ◌==◌, Text, nat_eq, text_eq, eq_of_beq, ℕ, ◌≤◌, ◌≡◌, refl, ◌≢◌,
  inl, inr, Bool, true, false, Option, some, List, [], ◌∷◌, arith,
}
use proxy_go.Text.{codes}
use proxy_go.Config.Loader.{Global, Disk}
use proxy_go.Auth.{KeyFile}
use proxy_go.Program.{
  Command, serve, hash, print_version, usage, Started, Flags, Setup, ready, fatal, command,
  cmd_hash, cmd_serve,
}
use proxy_go.Program.Starting.{cmd_serve_sound}

-- What `flag` makes of the arguments of `serve`: with `ExitOnError` it ends the program itself, with
-- exit code 0 if help is asked for and with 2 if the arguments are bad.
pub data ParsedFlags : Type 0 where
  parsed : Flags → ParsedFlags
  help bad : ParsedFlags

-- the program ends with an exit code, or goes on to the watcher and the listeners with its parts
pub data Ending : Type 0 where
  exits : ℕ → Ending
  serves : Started → Ending

-- `new_ui` is whether the templates of the admin interface parse; `fatal` ends with exit code 1
unfoldable pub after_setup : Bool → Setup Started → Ending
after_setup new_ui (fatal why) = exits 1
after_setup new_ui (ready st) = if new_ui then serves st else exits 1

module _ (join : Text → Text → Text) (clean : Text → Text) (mkdir : Text → Bool)
    (unmarshal : Text → Option Global) (parse_flags : List Text → ParsedFlags) (new_ui : Bool)
    (bcrypt : Text → Option Text) where
  unfoldable pub run_serve : ParsedFlags → KeyFile → Disk → Ending
  unfolding after_setup
  run_serve (parsed f) key disk =
      after_setup new_ui (cmd_serve join clean mkdir unmarshal f key disk)
  run_serve help key disk = exits 0
  run_serve bad key disk = exits 2

  unfoldable pub run_command : Command → KeyFile → Disk → Ending
  unfolding run_serve
  run_command (serve rest) key disk = run_serve (parse_flags rest) key disk
  run_command (hash rest) key disk = exits (cmd_hash bcrypt rest).0
  run_command print_version key disk = exits 0
  run_command usage key disk = exits 2

  -- `args` are those after the name of the program
  unfoldable pub run_main : List Text → KeyFile → Disk → Ending
  unfolding run_command
  run_main args key disk = run_command (command args) key disk

  after_setup-serves :
      (s : Setup Started) (st : Started)
      → after_setup new_ui s ≡ serves st
      → (s ≡ ready st) × (new_ui ≡ true)
  unfolding after_setup
  after_setup-serves (fatal why) st h = absurd (ground arith)
  after_setup-serves (ready found) st h = (ground arith, ground arith)

  run_serve-serves :
      (p : ParsedFlags) (key : KeyFile) (disk : Disk) (st : Started)
      → run_serve p key disk ≡ serves st
      → (f : Flags) × (p ≡ parsed f) × (cmd_serve join clean mkdir unmarshal f key disk ≡ ready st)
  unfolding run_serve
  run_serve-serves (parsed f) key disk st h = (f, refl, (after_setup-serves _ st h).0)
  run_serve-serves help key disk st h = absurd (ground arith)
  run_serve-serves bad key disk st h = absurd (ground arith)

  run_command-serves :
      (c : Command) (key : KeyFile) (disk : Disk) (st : Started)
      → run_command c key disk ≡ serves st
      → (rest : List Text) × (c ≡ serve rest) × (run_serve (parse_flags rest) key disk ≡ serves st)
  unfolding run_command
  run_command-serves (serve rest) key disk st h = (rest, refl, h)
  run_command-serves (hash rest) key disk st h = absurd (ground arith)
  run_command-serves print_version key disk st h = absurd (ground arith)
  run_command-serves usage key disk st h = absurd (ground arith)

  command-other :
      (name : Text) (args rest : List Text)
      → (name == codes "serve") ≡ false
      → ¬ (command (name ∷ args) ≡ serve rest)
  unfolding command
  command-other name args rest other h = ground (arith, other, h)

  command-serve : (args rest : List Text) → command args ≡ serve rest → args ≡ codes "serve" ∷ rest
  unfolding command
  command-serve [] rest h = absurd (ground arith)
  command-serve (name ∷ args) rest h = elim (Bool-cases (name == codes "serve")) [
    | inl asked ↦
        let same : serve args ≡ serve rest = simp asked at h in
        ground (arith, same, eq_of_beq name (codes "serve") asked)
    | inr other ↦ absurd (command-other name args rest other h)
  ]

  -- The program serves only if its first argument is "serve" and the flags after it are good. Then it
  -- has addresses to listen on, an address for the certificates' account, and, if the random source
  -- gives the 48 bytes that are asked of it, a secret of at least 32 bytes.
  pub run_main_sound :
      (args : List Text) (key : KeyFile) (disk : Disk) (st : Started)
      → ((b : Text) → key.random ≡ some b → length b ≡ 48)
      → run_main args key disk ≡ serves st
      → (rest : List Text) × (f : Flags) × (args ≡ codes "serve" ∷ rest)
        × (parse_flags rest ≡ parsed f)
        × (st.global.admin_addr ≢ [])
        × (st.global.http_addr ≢ [])
        × (st.global.https_addr ≢ [])
        × (st.acme.email ≢ [])
        × (32 ≤ length st.manager.secret)
  unfolding run_main
  run_main_sound args key disk st full h =
      let (rest, asked, run) = run_command-serves (command args) key disk st h in
      let (f, good, set_up) = run_serve-serves (parse_flags rest) key disk st run in
      let (admin, http, https, email, secret) =
        cmd_serve_sound join clean mkdir unmarshal f key disk st full set_up in
      (rest, f, command-serve args rest asked, good, admin, http, https, email, secret)
