-- ===== src/Auth.antt =====
-- internal/auth/auth.go: the admin list, the passwords and the signed session cookies. The hashes
-- and the base64 coding are parameters; the time is in unix seconds.
pub mod Session
pub mod Forgery
pub mod Secret
mod Tests
use proxy_go.Text.{codes, to_lower, split_n}
use proxy_go.Dict.{Dict, lookup, insert}
use proxy_go.Prelude.Int.{pos, ltb_ℤ}
use proxy_go.Decimal.{format_int, parse_int}
use proxy_go.Prelude.{
  ltb, leb, if◌then◌else◌, length, is_empty, ◌==◌, Text, nat_eq, text_eq, ℕ, ◌+◌, ◌≡◌, Bool, true,
  false, not, ◌||◌, Option, none, some, List, [], ◌∷◌, ◌++◌,
}

-- HMAC-SHA256 of a payload under a secret, bcrypt's comparison of a hash with a password, and
-- base64.RawURLEncoding, which decodes what it encodes.
pub record Crypto : Type 0 where
  pub hmac : Text → Text → Text
  pub bcrypt_ok : Text → Text → Bool
  pub encode : Text → Text
  pub decode : Text → Option Text
  pub decode-encode : (s : Text) → decode (encode s) ≡ some s

pub record Admin : Type 0 where
  pub username : Text
  pub password_hash : Text

pub record Manager : Type 0 where
  pub admins : Dict Text Text
  pub secret : Text

pub data AuthError : Type 0 where
  no_admins secret_too_short rand_failed write_failed invalid_credentials : AuthError
  empty_admin : Text → AuthError

pub data Result {ℓ} (A : Type ℓ) : Type ℓ where
  ok : A → Result A
  err : AuthError → Result A

-- `MaxAge` is 0 where it is not set.
pub record Cookie : Type 0 where
  pub name : Text
  pub value : Text
  pub path : Text
  pub http_only : Bool
  pub same_site_lax : Bool
  pub secure : Bool
  pub expires : ℕ
  pub expire_now : Bool

abbrev pub cookie_name : Text
cookie_name = codes "jobcloud_session"

-- 24 hours
abbrev pub session_max_age : ℕ
session_max_age = 86_400

-- the loop over the configured admins
add_admins : List Admin → Dict Text Text → Result (Dict Text Text)
add_admins [] admins = ok admins
add_admins (a ∷ as') admins =
    let rest = add_admins as' (insert (to_lower a.username) a.password_hash admins) in
    if is_empty a.username || is_empty a.password_hash then err (empty_admin a.username) else rest

-- What the file secret.key holds, what the random source gives, and whether the write succeeds.
pub record KeyFile : Type 0 where
  pub stored : Option Text
  pub random : Option Text
  pub writable : Bool

fresh_secret : Option Text → Bool → Result Text
fresh_secret none writable = err rand_failed
fresh_secret (some b) writable = if writable then ok b else err write_failed

stored_secret : Option Text → Option Text
stored_secret none = none
stored_secret (some b) = if leb 32 (length b) then some b else none

unfoldable pub resolve_secret : Text → KeyFile → Result Text
unfolding fresh_secret stored_secret
resolve_secret configured f =
    if not (is_empty configured)
    then if ltb (length configured) 32 then err secret_too_short else ok configured
    else elim (stored_secret f.stored) [ some b ↦ ok b | none ↦ fresh_secret f.random f.writable ]

with_secret : Dict Text Text → Result Text → Result Manager
with_secret admins (err e) = err e
with_secret admins (ok s) = ok (record { admins = admins; secret = s })

with_admins : Text → KeyFile → Result (Dict Text Text) → Result Manager
unfolding with_secret
with_admins configured f (err e) = err e
with_admins configured f (ok admins) = with_secret admins (resolve_secret configured f)

unfoldable pub new_manager : List Admin → Text → KeyFile → Result Manager
unfolding add_admins with_admins
new_manager admins configured f =
    if is_empty admins then err no_admins else with_admins configured f (add_admins admins [])

-- bcrypt's `DefaultCost`
abbrev pub default_cost : ℕ
default_cost = 10

-- `generate` is bcrypt's, of a cost and a password
unfoldable pub hash_password : (ℕ → Text → Option Text) → Text → Option Text
hash_password generate plaintext = generate default_cost plaintext

module _ (c : Crypto) where
  open c use {hmac, bcrypt_ok, encode, decode}

  -- `none` is a nil error; both failures are the same error
  unfoldable pub verify_password : Text → Text → Manager → Option AuthError
  verify_password username password m = elim (lookup (to_lower username) m.admins) [
    | none ↦ some invalid_credentials
    | some hash ↦ if bcrypt_ok hash password then none else some invalid_credentials
  ]

  unfoldable pub sign : Text → Manager → Text
  sign payload m = encode (hmac m.secret payload)

  unfoldable pub issue_cookie : Text → Bool → ℕ → Manager → Cookie
  unfolding sign
  issue_cookie username tls now m =
      let exp = now + session_max_age in
      let payload = to_lower username ++ b'.' ∷ format_int exp in
      let sig = sign payload m in
      record {
        name = cookie_name;
        value = encode (payload ++ b'.' ∷ sig);
        path = codes "/";
        http_only = true;
        same_site_lax = true;
        secure = tls;
        expires = exp;
        expire_now = false;
      }

  -- The checks of `Authenticated` on the parts of the decoded value; `[]` is no user.
  unfoldable pub check_session : ℕ → Manager → List Text → Text
  check_session now m (username ∷ exp_str ∷ sig ∷ []) = elim (parse_int exp_str) [
    | none ↦ []
    | some exp ↦
        if not (ltb_ℤ (pos now) exp)
        then []
        else if not (sig == sign (username ++ b'.' ∷ exp_str) m)
        then []
        else elim (lookup username m.admins) [ none ↦ [] | some _ ↦ username ]
  ]
  check_session now m _ = []

  -- the user of a request with this session cookie, if it has one
  unfoldable pub authenticated : Option Text → ℕ → Manager → Text
  authenticated none now m = []
  authenticated (some value) now m = elim (decode value) [
    | none ↦ []
    | some raw ↦ check_session now m (split_n raw b'.' 3)
  ]

  -- `Require`: the handler is called, or the request is sent to the login page
  unfoldable pub require {ℓ} : {A : Type ℓ} → Option Text → ℕ → Manager → A → A → A
  unfolding authenticated
  require cookie now m next login = if is_empty (authenticated cookie now m) then login else next

unfoldable pub clear_cookie : Bool → Cookie
clear_cookie tls = record {
  name = cookie_name;
  value = [];
  path = codes "/";
  http_only = true;
  same_site_lax = true;
  secure = tls;
  expires = 0;
  expire_now = true;
}
