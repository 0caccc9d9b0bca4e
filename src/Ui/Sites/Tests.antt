-- ===== src/Ui/Sites/Tests.antt =====
-- The handlers on the sample: a form for the site, and a toggle on a full disk.
use proxy_go.Prelude.{
  Text, text_beq, nat_eq, text_eq, ℕ, ◌≡◌, refl, sym, ap, true, false, none, some, [], ◌∷◌, arith,
}
use proxy_go.Text.{
  codes, trim_space, has_prefix, contains_text, fields, split_all, join_texts, last_index, cut,
  split_n,
}
use proxy_go.Dict.{lookup}
use proxy_go.Decimal.{format_int, parse_int}
use proxy_go.Config.Site.{Site, split_host_port, valid_upstream, validate}
use proxy_go.Config.Store.{snapshot}
use proxy_go.Config.Loader.{loaded, write_failed, save_site, load_site_file}
use proxy_go.Ui.Form.{read_form}
use proxy_go.Ui.Form.RoundTrip.{form_of}
use proxy_go.Ui.Types.{State, UiRequest, redirect, save_error, Answer, deref, trigger_reload}
use proxy_go.Ui.Sample.{blog, server, state, request_to, moment_with}
use proxy_go.Ui.Sites.{item_path, create_or_update_site, toggle, handle_sites_item}
use proxy_go.Ui.Sites.Saving.{load_site_file-create_or_update_site, toggle_refused}
use proxy_go.Ui.Sites.Methods.{handle_sites_item-get}

abbrev moved : Site
moved = record blog { domain = codes "b.org" }

-- the form of the site, with another domain
abbrev form_sent : UiRequest
form_sent = request_to true (codes "/sites/b.com.yml") (form_of moved 0 0)

abbrev form_answer : Answer × State ℕ
form_answer = create_or_update_site server form_sent (moment_with true) (some 0) state

accepted_test : form_answer.0.page ≡ redirect 303 (codes "/sites/b.com.yml?saved=1")
unfolding create_or_update_site save_site validate trim_space read_form lookup text_beq split_all
    join_texts valid_upstream contains_text split_host_port last_index
accepted_test = refl

load_site_file-create_or_update_site_example :
    load_site_file server.parse_url server.base server.unmarshal
      (codes "s/b.com.yml")
      form_answer.1.disk
    ≡ loaded moved
unfolding read_form trim_space fields split_all text_beq parse_int lookup join_texts format_int
load_site_file-create_or_update_site_example =
    load_site_file-create_or_update_site server form_sent (moment_with true) (some 0) state 303
      (codes "/sites/b.com.yml?saved=1")
      ((λ b e. sym (ap (λ o. elim o [ none ↦ none | some x ↦ server.unmarshal x ]) e)), refl)
      accepted_test

abbrev toggled : Answer × State ℕ
toggled = toggle server (moment_with false) (some 0) state

refused_test : toggled.0.page ≡ save_error write_failed
unfolding toggle save_site validate trim_space valid_upstream contains_text split_host_port
    last_index
refused_test = refl

toggle_refused_example :
    ((deref toggled.1.heap 0).enabled ≡ false)
    × (toggled.1.store ≡ state.store)
    × (lookup (codes "s/b.com.yml") toggled.1.disk ≡ some (codes "b.com"))
unfolding lookup text_beq
toggle_refused_example =
    toggle_refused server (moment_with false) 0 state write_failed (codes "s/b.com.yml")
      (omega arith) refused_test (λ e. ground (arith, e))

abbrev toggle_by_get : UiRequest
toggle_by_get = request_to false (codes "/sites/b.com.yml/toggle") []

toggle_by_get_test : (handle_sites_item server toggle_by_get (moment_with true) state).1.world ≡ 1
unfolding handle_sites_item has_prefix split_n cut contains_text text_beq snapshot save_site
    validate trim_space valid_upstream split_host_port last_index trigger_reload
toggle_by_get_test = refl

handle_sites_item-get_example :
    (f : Text) × (split_n (item_path toggle_by_get.path) b'/' 2 ≡ f ∷ codes "toggle" ∷ [])
handle_sites_item-get_example =
    handle_sites_item-get server toggle_by_get (moment_with true) state refl
      (λ same. ground (arith, toggle_by_get_test, same))
