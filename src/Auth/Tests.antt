-- ===== src/Auth/Tests.antt =====
-- One admin and a toy coding: the text is its own code, and the signature is the secret before the
-- payload.
use proxy_go.Prelude.{
  ltb, if◌then◌else◌, length, ◌==◌, Text, text_beq, nat_eq, text_eq, ◌+◌, ◌≤◌, ◌≡◌, refl, ◌↔◌, true,
  false, none, some, [], ◌∷◌, ◌++◌, arith,
}
use proxy_go.Text.{codes, to_lower, cut, split_n}
use proxy_go.Dict.{lookup, insert}
use proxy_go.Decimal.{format_int, parse_int}
use proxy_go.Auth.{
  Crypto, Admin, Manager, ok, KeyFile, session_max_age, resolve_secret, new_manager,
  verify_password, issue_cookie, check_session, authenticated, require,
}
use proxy_go.Auth.Session.{authenticated-issue_cookie, authenticated-dotted}
use proxy_go.Auth.Forgery.{IsGenuine, authenticated-IsGenuine}
use proxy_go.Auth.Secret.{
  last_hash, length-new_manager, verify_password-new_manager_iff, require-IsGenuine,
}

abbrev plain : Crypto
plain = record {
  hmac = λ key payload. key ++ payload;
  bcrypt_ok = λ hash password. hash == password;
  encode = λ s. s;
  decode = λ s. some s;
  decode-encode = λ s. refl;
}

abbrev admin_alice : Admin
admin_alice = record { username = codes "Alice"; password_hash = codes "pw" }

abbrev alice_only : Manager
alice_only = record {
  admins = (codes "alice", codes "pw") ∷ [];
  secret = codes "0123456789abcdef0123456789abcdef";
}

abbrev no_file : KeyFile
no_file = record { stored = none; random = none; writable = false }

abbrev alice_cookie : Text
alice_cookie = (issue_cookie plain (codes "Alice") true 1000 alice_only).value

new_manager_test :
    new_manager (admin_alice ∷ []) (codes "0123456789abcdef0123456789abcdef") no_file
    ≡ ok alice_only
unfolding new_manager resolve_secret to_lower insert
new_manager_test = refl

authenticated-issue_cookie_example :
    authenticated plain (some alice_cookie) 2000 alice_only
    ≡ (if ltb 2000 (1000 + session_max_age) then to_lower (codes "Alice") else [])
unfolding to_lower lookup text_beq
authenticated-issue_cookie_example =
    authenticated-issue_cookie plain alice_only (codes "Alice") true 1000 2000 refl refl
      (omega arith)

authenticated-IsGenuine_example :
    IsGenuine plain alice_cookie 2000 alice_only (to_lower (codes "Alice"))
unfolding to_lower lookup text_beq
authenticated-IsGenuine_example =
    authenticated-IsGenuine plain alice_cookie (to_lower (codes "Alice")) 2000 alice_only
      (authenticated-issue_cookie plain alice_only (codes "Alice") true 1000 2000 refl refl
        (omega arith))
      (λ e. ground (arith, e))

authenticated-dotted_test :
    authenticated plain
      (some (issue_cookie plain (codes "jane" ++ b'.' ∷ codes "doe") true 1000 alice_only).value)
      2000
      alice_only
    ≡ []
unfolding to_lower parse_int
authenticated-dotted_test =
    authenticated-dotted plain alice_only (codes "jane") (codes "doe") true 1000 2000 refl refl refl

length-new_manager_test : 32 ≤ length alice_only.secret
length-new_manager_test =
    length-new_manager (admin_alice ∷ []) (codes "0123456789abcdef0123456789abcdef") no_file
      alice_only (λ b e. ground (arith, e)) new_manager_test

verify_password-new_manager_iff_test :
    (verify_password plain (codes "ALICE") (codes "pw") alice_only ≡ none) ↔ (
      (hash : Text) × (last_hash (to_lower (codes "ALICE")) none (admin_alice ∷ []) ≡ some hash)
      × (plain.bcrypt_ok hash (codes "pw") ≡ true))
verify_password-new_manager_iff_test =
    verify_password-new_manager_iff plain (admin_alice ∷ [])
      (codes "0123456789abcdef0123456789abcdef") no_file alice_only (codes "ALICE") (codes "pw")
      new_manager_test

require_test : require plain (some alice_cookie) 2000 alice_only true false ≡ true
unfolding require authenticated issue_cookie to_lower lookup text_beq check_session split_n cut
    format_int parse_int
require_test = refl

require-IsGenuine_test :
    (value : Text) × (user : Text) × (some alice_cookie ≡ some value)
    × IsGenuine plain value 2000 alice_only user
require-IsGenuine_test =
    require-IsGenuine plain (some alice_cookie) 2000 alice_only true false (λ e. ground (arith, e))
      require_test
