-- ===== src/Ui/Handler/Tests.antt =====
-- A signed-in admin deletes the sample's site.
use proxy_go.Prelude.{Text, text_beq, nat_eq, text_eq, ℕ, ◌≡◌, refl, ap, true, some, [], arith}
use proxy_go.Text.{codes, to_lower, has_prefix, contains_text, cut, split_n}
use proxy_go.Dict.{lookup}
use proxy_go.Decimal.{format_int, parse_int}
use proxy_go.Config.Loader.{delete_site}
use proxy_go.Auth.{issue_cookie, check_session, require}
use proxy_go.Auth.Forgery.{IsGenuine}
use proxy_go.Ui.Types.{State, UiRequest, Answer, trigger_reload}
use proxy_go.Ui.Sample.{server, state, request_to, moment_with}
use proxy_go.Ui.Sites.{handle_sites_item}
use proxy_go.Ui.Handler.{handler}
use proxy_go.Ui.Handler.Guard.{handler-IsGenuine}

abbrev deletion : UiRequest
deletion = request_to true (codes "/sites/b.com.yml/delete") []

abbrev deleted : Answer × State ℕ
deleted = handler server deletion (moment_with true) state

deleted_test : deleted.1.world ≡ 1
unfolding handler text_beq has_prefix require check_session split_n cut issue_cookie to_lower
    format_int parse_int lookup handle_sites_item contains_text delete_site trigger_reload
deleted_test = refl

handler-IsGenuine_example :
    (value : Text) × (user : Text) × (deletion.cookie ≡ some value)
    × IsGenuine server.crypto value 2000 server.manager user
handler-IsGenuine_example =
    handler-IsGenuine server deletion (moment_with true) state
      (λ same. ground (arith, deleted_test, ap (λ q. q.world) same))
