-- ===== src/Ui/Login/Session.antt =====
-- What a login gives.
use proxy_go.Prelude.{
  ltb, if◌then◌else◌, Option-cases, contains, Text, nat_eq, text_eq, ℕ, ◌+◌, ◌≤◌, ◌≡◌, refl, ap,
  ◌∙◌, inl, inr, true, false, none, some, [], arith,
}
use proxy_go.Text.{codes, to_lower, has_prefix}
use proxy_go.Dict.{lookup}
use proxy_go.Decimal.{i64_max}
use proxy_go.Auth.{
  Crypto, Manager, Cookie, session_max_age, verify_password, issue_cookie, authenticated,
}
use proxy_go.Auth.Session.{is_admin, authenticated-issue_cookie}
use proxy_go.Ui.Form.{form_value}
use proxy_go.Ui.Types.{UiRequest, Moment, redirect}
use proxy_go.Ui.Login.{next_of_query, next_of_form, handle_login}

verify_password-is_admin :
    (c : Crypto) (username password : Text) (m : Manager)
    → verify_password c username password m ≡ none
    → is_admin (to_lower username) m ≡ true
unfolding verify_password
verify_password-is_admin c username password m h =
    elim (Option-cases (lookup (to_lower username) m.admins)) [
      | inl missing ↦ absurd (ground arith)
      | inr (hash, found) ↦ ground arith
    ]

next_of_query-rooted : (q : Text) → has_prefix (next_of_query q) (codes "/") ≡ true
unfolding next_of_query
next_of_query-rooted q =
    let root : has_prefix (codes "/") (codes "/") ≡ true = unfold has_prefix in refl in ground arith

next_of_form-rooted :
    (field next : Text)
    → has_prefix next (codes "/") ≡ true
    → has_prefix (next_of_form field next) (codes "/") ≡ true
unfolding next_of_form
next_of_form-rooted field next h = ground arith

module _ (c : Crypto) (m : Manager) (r : UiRequest) (t : Moment) where
  abbrev pub username_of : Text
  username_of = form_value (codes "username") r.form

  handle_login_cookie :
      (k : Cookie)
      → (handle_login c m r t).cookie ≡ some k
      → (verify_password c username_of (form_value (codes "password") r.form) m ≡ none)
        × (k ≡ issue_cookie c username_of r.tls t.now m)
  unfolding handle_login
  handle_login_cookie k h =
      elim (Option-cases (verify_password c username_of (form_value (codes "password") r.form) m)) [
        | inl right ↦ (right, ground arith)
        | inr (e, wrong) ↦ absurd (ground arith)
      ]

  -- A login sets a cookie only if the password is right, and then the cookie authenticates the
  -- user, if the name has no dot and the end fits an int64, until the 24 hours are over, and nobody
  -- from then on.
  pub handle_login_session :
      (k : Cookie) (later : ℕ)
      → (handle_login c m r t).cookie ≡ some k
      → contains username_of b'.' ≡ false
      → t.now + session_max_age ≤ i64_max
      → (verify_password c username_of (form_value (codes "password") r.form) m ≡ none)
        × (authenticated c (some k.value) later m
            ≡ (if ltb later (t.now + session_max_age) then to_lower username_of else []))
  handle_login_session k later h no_dot fits =
      let (right, made) = handle_login_cookie k h in
      (
        right,
        ap (λ q. authenticated c (some q.value) later m) made
            ∙ authenticated-issue_cookie c m username_of r.tls t.now later no_dot
                (verify_password-is_admin c username_of _ m right) fits,
      )

  -- A login leads to a path: where it redirects to, there is a "/" first.
  pub handle_login_target :
      (code : ℕ) (target : Text)
      → (handle_login c m r t).page ≡ redirect code target
      → has_prefix target (codes "/") ≡ true
  unfolding handle_login
  handle_login_target code target h =
      let next = next_of_query r.query_next in
      let rooted =
        next_of_form-rooted (form_value (codes "next") r.form) next
          (next_of_query-rooted r.query_next) in
      elim (Option-cases (verify_password c username_of (form_value (codes "password") r.form) m)) [
        | inl right ↦ ground (arith, rooted)
        | inr (e, wrong) ↦ absurd (ground arith)
      ]
