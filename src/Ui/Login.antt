-- ===== src/Ui/Login.antt =====
-- internal/ui/ui.go: `handleLogin` and `handleLogout`.
pub mod Session
mod Tests
use proxy_go.Prelude.{
  if◌then◌else◌, is_empty, Text, nat_eq, text_eq, not, ◌&&◌, ◌||◌, none, some, [],
}
use proxy_go.Text.{codes, has_prefix}
use proxy_go.Auth.{Crypto, Manager, verify_password, issue_cookie, clear_cookie}
use proxy_go.Ui.Form.{form_value}
use proxy_go.Ui.Types.{UiRequest, Moment, redirect, http_error, login_view, Answer, plain}

-- where the query leads after the login
next_of_query : Text → Text
next_of_query q = if is_empty q || not (has_prefix q (codes "/")) then codes "/" else q

-- the form's field, which goes before the query's
next_of_form : Text → Text → Text
next_of_form field next =
    if not (is_empty field) && has_prefix field (codes "/") then field else next

module _ (c : Crypto) (m : Manager) where
  unfoldable pub handle_login : UiRequest → Moment → Answer
  unfolding next_of_query next_of_form
  handle_login r t =
      let next = next_of_query r.query_next in
      if not r.is_post
      then plain (login_view [] next)
      else if not r.form_ok
      then plain (http_error 400 (codes "bad form"))
      else (let username = form_value (codes "username") r.form in
          let target = next_of_form (form_value (codes "next") r.form) next in
          elim (verify_password c username (form_value (codes "password") r.form) m) [
            | some e ↦ plain (login_view (codes "Invalid username or password.") target)
            | none ↦ record {
              page = redirect 303 target;
              cookie = some (issue_cookie c username r.tls t.now m);
            }
          ])

unfoldable pub handle_logout : UiRequest → Answer
handle_logout r = record {
  page = redirect 303 (codes "/login");
  cookie = some (clear_cookie r.tls);
}
