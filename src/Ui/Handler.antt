-- ===== src/Ui/Handler.antt =====
-- internal/ui/ui.go: `Handler`, the two muxes with the session check between them. A pattern that
-- ends in "/" matches what begins with it, any other matches itself, and the longest goes first.
pub mod Guard
mod Tests
use proxy_go.Prelude.{if◌then◌else◌, drop, ◌==◌, nat_eq, text_eq, not, ◌++◌}
use proxy_go.Text.{codes, has_prefix}
use proxy_go.Auth.{require}
use proxy_go.Ui.Types.{
  State, Server, UiRequest, Moment, redirect, static_file, Answer, plain, see_other,
}
use proxy_go.Ui.Login.{handle_login, handle_logout}
use proxy_go.Ui.Sites.{
  handle_dashboard, handle_site_rows_partial, handle_site_new, handle_certs, handle_sites_list,
  handle_sites_item,
}

module _ {W : Type 0} (srv : Server W) where
  -- the routes behind the session check
  unfoldable pub authed : UiRequest → Moment → State W → Answer × State W
  authed r t st =
      if r.path == codes "/sites"
      then handle_sites_list srv r t st
      else if r.path == codes "/sites/new"
      then (handle_site_new srv t st, st)
      else if has_prefix r.path (codes "/sites/")
      then handle_sites_item srv r t st
      else if r.path == codes "/certs"
      then (handle_certs srv t st, st)
      else if r.path == codes "/partials/site-rows"
      then (handle_site_rows_partial srv t st, st)
      else (handle_dashboard srv r t st, st)

  login_first : UiRequest → Answer
  login_first r = see_other (codes "/login?next=" ++ r.path)

  -- A path that is not clean is redirected, as is the static directory's name without its slash.
  unfoldable pub handler : UiRequest → Moment → State W → Answer × State W
  unfolding authed login_first
  handler r t st =
      if not (srv.clean_path r.path == r.path)
      then (plain (redirect 301 (srv.clean_path r.path)), st)
      else if has_prefix r.path (codes "/static/")
      then (plain (static_file (drop 8 r.path)), st)
      else if r.path == codes "/static"
      then (plain (redirect 301 (codes "/static/")), st)
      else if r.path == codes "/login"
      then (handle_login srv.crypto srv.manager r t, st)
      else if r.path == codes "/logout"
      then (handle_logout r, st)
      else require srv.crypto r.cookie t.now srv.manager (authed r t st) (login_first r, st)
