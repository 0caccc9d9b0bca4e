-- ===== src/Ui/Login/Tests.antt =====
-- Alice logs in, with a toy coding in which a text is its own code.
use proxy_go.Prelude.{
  ltb, if◌then◌else◌, ◌==◌, text_beq, nat_eq, text_eq, ◌+◌, ◌≡◌, refl, true, none, some, [], ◌∷◌,
  ◌++◌, arith,
}
use proxy_go.Text.{codes, to_lower}
use proxy_go.Dict.{lookup}
use proxy_go.Auth.{
  Crypto, Manager, Cookie, session_max_age, verify_password, issue_cookie, authenticated,
}
use proxy_go.Ui.Form.{form_value}
use proxy_go.Ui.Types.{UiRequest, Moment}
use proxy_go.Ui.Login.{handle_login}
use proxy_go.Ui.Login.Session.{username_of, handle_login_session}

abbrev toy : Crypto
toy = record {
  hmac = λ key payload. key ++ payload;
  bcrypt_ok = λ hash password. hash == password;
  encode = λ s. s;
  decode = λ s. some s;
  decode-encode = λ s. refl;
}

abbrev alice_only : Manager
alice_only = record {
  admins = (codes "alice", codes "pw") ∷ [];
  secret = codes "0123456789abcdef0123456789abcdef";
}

abbrev login : UiRequest
login = record {
  path = codes "/login";
  is_post = true;
  form_ok = true;
  form = (codes "username", codes "Alice") ∷ (codes "password", codes "pw") ∷ [];
  query_next = codes "/certs";
  cookie = none;
  tls = true;
}

abbrev moment : Moment
moment = record {
  now = 1000;
  uptime = 5;
  faults = record { write_ok = true; left = []; rename_ok = true };
}

abbrev alice_cookie : Cookie
alice_cookie = issue_cookie toy (codes "Alice") true 1000 alice_only

login_test : (handle_login toy alice_only login moment).cookie ≡ some alice_cookie
unfolding handle_login form_value lookup text_beq verify_password to_lower
login_test = refl

handle_login_session_example :
    (verify_password toy
        (username_of toy alice_only login moment)
        (form_value (codes "password") login.form)
        alice_only
      ≡ none)
    × (authenticated toy (some alice_cookie.value) 2000 alice_only ≡ (
        if ltb 2000 (1000 + session_max_age)
        then to_lower (username_of toy alice_only login moment)
        else []))
unfolding form_value lookup text_beq
handle_login_session_example =
    handle_login_session toy alice_only login moment alice_cookie 2000 login_test refl (omega arith)
