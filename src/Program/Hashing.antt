-- ===== src/Program/Hashing.antt =====
-- The command that hashes a password, and the login with that password.
use proxy_go.Prelude.{
  Bool-cases, Option-cases, is_empty, Text, nat_eq, text_eq, ℕ, ◌≡◌, refl, sym, ap, ◌∙◌, inl, inr,
  true, false, Option, none, some, List, [], ◌∷◌, arith,
}
use proxy_go.Text.{to_lower}
use proxy_go.Auth.{
  Crypto, Admin, Manager, ok, KeyFile, new_manager, default_cost, hash_password, verify_password,
}
use proxy_go.Auth.Secret.{last_hash, verify_password-new_manager_iff}
use proxy_go.Program.{cmd_hash}

-- If bcrypt accepts a password for the hash that it makes of it, what the command prints with exit code
-- 0 is a hash of its one argument, which is not empty; and once that hash is configured as the last one
-- for a user name, in any case, the user logs in with that password.
pub verify_password-cmd_hash :
    (c : Crypto) (generate : ℕ → Text → Option Text) (args : List Text) (printed : Text)
    (admins : List Admin) (configured : Text) (f : KeyFile) (m : Manager) (username : Text)
    → ((pw h : Text) → generate default_cost pw ≡ some h → c.bcrypt_ok h pw ≡ true)
    → cmd_hash (hash_password generate) args ≡ (0, printed)
    → new_manager admins configured f ≡ ok m
    → last_hash (to_lower username) none admins ≡ some printed
    → (pw : Text) × (args ≡ pw ∷ [])
      × (is_empty pw ≡ false)
      × (verify_password c username pw m ≡ none)
unfolding cmd_hash hash_password
verify_password-cmd_hash c generate [] printed admins configured f m username good e made last =
    absurd (ground (arith, e))
verify_password-cmd_hash c generate (pw ∷ []) printed admins configured f m username good e made
      last =
    elim (Bool-cases (is_empty pw)) [
      | inl empty ↦ absurd (ground (arith, e, empty))
      | inr given ↦ elim (Option-cases (generate default_cost pw)) [
        | inl broken ↦ absurd (ground (arith, e, given, broken))
        | inr (h, generated) ↦
            let same : h ≡ printed = ground (arith, e, given, generated) in
            (
              pw,
              refl,
              given,
              (verify_password-new_manager_iff c admins configured f m username pw made).1
                  (printed, last, ap (λ q. c.bcrypt_ok q pw) (sym same) ∙ good pw h generated),
            )
      ]
    ]
verify_password-cmd_hash c generate (pw ∷ more ∷ args) printed admins configured f m username good e
      made last =
    absurd (ground (arith, e))
