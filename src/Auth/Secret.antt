-- ===== src/Auth/Secret.antt =====
-- What `New` puts into a manager, and what the password check and `Require` make of it.
use proxy_go.Prelude.{
  if◌then◌else◌, Bool-cases, Option-cases, length, is_empty, is_empty_iff, ◌==◌, Text, nat_eq,
  text_eq, ℕ, ◌≤◌, ◌≡◌, refl, sym, ap, ◌∙◌, ◌≢◌, ◌↔◌, inl, inr, true, Option, none, some, List, [],
  ◌∷◌, arith,
}
use proxy_go.Dict.{Dict, lookup, insert, lookup-insert}
use proxy_go.Text.{to_lower}
use proxy_go.Auth.{
  Crypto, Admin, Manager, Result, ok, err, KeyFile, add_admins, fresh_secret, stored_secret,
  resolve_secret, with_secret, with_admins, new_manager, verify_password, authenticated, require,
}
use proxy_go.Auth.Forgery.{IsGenuine, authenticated-IsGenuine}

-- the hash of the last configured admin with this name in lower case
abbrev pub last_hash : Text → Option Text → List Admin → Option Text
last_hash name found [] = found
last_hash name found (a ∷ as') =
    last_hash name (if to_lower a.username == name then some a.password_hash else found) as'

lookup-add_admins :
    (as' : List Admin) (admins m : Dict Text Text) (name : Text)
    → add_admins as' admins ≡ ok m
    → lookup name m ≡ last_hash name (lookup name admins) as'
unfolding add_admins
lookup-add_admins [] admins m name h = ground arith
lookup-add_admins (a ∷ as') admins m name h =
    let rest : add_admins as' (insert (to_lower a.username) a.password_hash admins) ≡ ok m =
      ground arith in
    lookup-add_admins as' _ m name rest
    ∙ ap (λ f. last_hash name f as')
        (lookup-insert (to_lower a.username) name a.password_hash admins)

with_secret_sound :
    (admins : Dict Text Text) (r : Result Text) (m : Manager)
    → with_secret admins r ≡ ok m
    → (admins ≡ m.admins) × (r ≡ ok m.secret)
unfolding with_secret
with_secret_sound admins (err e) m h = absurd (ground arith)
with_secret_sound admins (ok s) m h =
    let made : record { admins = admins; secret = s } ≡ m = ground arith in
    (ap (λ n. n.admins) made, ap (λ n. ok n.secret) made)

-- A manager is made from both results, or not at all.
with_admins_sound :
    (configured : Text) (f : KeyFile) (r : Result (Dict Text Text)) (m : Manager)
    → with_admins configured f r ≡ ok m
    → (r ≡ ok m.admins) × (resolve_secret configured f ≡ ok m.secret)
unfolding with_admins
with_admins_sound configured f (err e) m h = absurd (ground arith)
with_admins_sound configured f (ok admins) m h =
    let (same, made) = with_secret_sound admins (resolve_secret configured f) m h in
    (ap ok same, made)

resolve_secret-length :
    (configured : Text) (f : KeyFile) (s : Text)
    → ((b : Text) → f.random ≡ some b → length b ≡ 48)
    → resolve_secret configured f ≡ ok s
    → 32 ≤ length s
unfolding resolve_secret fresh_secret stored_secret
resolve_secret-length configured f s rand h = elim (Option-cases f.random) [
  | inl missing ↦ ground arith
  | inr (b, found) ↦ ground (arith, rand b found)
]

new_manager_sound :
    (admins : List Admin) (configured : Text) (f : KeyFile) (m : Manager)
    → new_manager admins configured f ≡ ok m
    → (add_admins admins [] ≡ ok m.admins) × (resolve_secret configured f ≡ ok m.secret)
unfolding new_manager
new_manager_sound [] configured f m h = absurd (ground arith)
new_manager_sound (a ∷ as') configured f m h = with_admins_sound configured f _ m h

-- If a fresh secret has the 48 bytes that are asked of the random source, a manager that `New`
-- makes has a secret of 32 bytes or more, wherever it is from.
pub length-new_manager :
    (admins : List Admin) (configured : Text) (f : KeyFile) (m : Manager)
    → ((b : Text) → f.random ≡ some b → length b ≡ 48)
    → new_manager admins configured f ≡ ok m
    → 32 ≤ length m.secret
length-new_manager admins configured f m rand h =
    resolve_secret-length configured f m.secret rand (new_manager_sound admins configured f m h).1

-- With a manager that `New` makes a password is right exactly when it matches the hash of the last
-- configured admin of that name, in any case.
pub verify_password-new_manager_iff :
    (c : Crypto) (admins : List Admin) (configured : Text) (f : KeyFile) (m : Manager)
    (username password : Text)
    → new_manager admins configured f ≡ ok m
    → (verify_password c username password m ≡ none) ↔ (
        (hash : Text) × (last_hash (to_lower username) none admins ≡ some hash)
        × (c.bcrypt_ok hash password ≡ true))
unfolding verify_password
verify_password-new_manager_iff c admins configured f m username password h =
    let looked =
      lookup-add_admins admins [] m.admins (to_lower username)
        (new_manager_sound admins configured f m h).0 in
    let searched : lookup (to_lower username) m.admins ≡ last_hash (to_lower username) none admins =
      looked ∙ (unfold lookup in refl) in
    elim (Option-cases (lookup (to_lower username) m.admins)) [
      | inl missing ↦
          ((λ e. absurd (ground arith)), (λ q. absurd (let (hash, found, _) = q in ground arith)))
      | inr (hash, found) ↦ (
        (λ e. (hash, ground arith, ground arith)),
        (λ q. let (other, stored, right) = q in ground arith),
      )
    ]

-- `Require` calls the handler, where that is not the login page, only if there is a session
-- cookie, and it is a genuine one of an admin.
pub require-IsGenuine {ℓ} :
    {A : Type ℓ} (c : Crypto) (cookie : Option Text) (now : ℕ) (m : Manager) (next login : A)
    → next ≢ login
    → require c cookie now m next login ≡ next
    → (value : Text) × (user : Text) × (cookie ≡ some value) × IsGenuine c value now m user
unfolding require authenticated
require-IsGenuine c none now m next login ne h = absurd (ne (sym h))
require-IsGenuine c (some value) now m next login ne h =
    elim (Bool-cases (is_empty (authenticated c (some value) now m))) [
      | inl none_left ↦ absurd (ground arith)
      | inr user_left ↦ (
        value,
        authenticated c (some value) now m,
        refl,
        authenticated-IsGenuine c value _ now m refl
            (λ e. ground (arith, is_empty_iff (authenticated c (some value) now m), user_left, e)),
      )
    ]
