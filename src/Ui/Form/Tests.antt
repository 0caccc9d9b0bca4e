-- ===== src/Ui/Form/Tests.antt =====
-- The form of a site with two upstreams.
use proxy_go.Decimal.{parse_int}
use proxy_go.Dict.{lookup}
use proxy_go.Prelude.{nat_eq, text_eq, ◌≡◌, refl, true, false, [], ◌∷◌, arith}
use proxy_go.Prelude.Int.{pos}
use proxy_go.Text.{codes, is_space, trim_left, trim_right, trim_space}
use proxy_go.Config.Site.{Site}
use proxy_go.Ui.Form.{form_value, int_or, read_form}
use proxy_go.Ui.Form.RoundTrip.{form_of, read_form-form_of}

abbrev blog : Site
blog = record {
  filename = codes "b.com.yml";
  domain = codes "b.com";
  aliases = codes "www" ∷ codes "b.org" ∷ [];
  upstreams = codes "local:1" ∷ codes "local:2" ∷ [];
  enabled = true;
  tls = record { auto = true; cert_file = []; key_file = [] };
  http_to_https = true;
  web_socket = false;
  block_common_exploits = true;
  rate_limit = record { enabled = true; rps = pos 10; burst = pos 20 };
  custom_headers = [];
}

read_form-form_of_example : read_form (form_of blog 10 20) blog ≡ blog
unfolding trim_space trim_left trim_right is_space
read_form-form_of_example =
    read_form-form_of blog 10 20 refl
      (
        ((λ e. ground (arith, e)), (refl, (refl, (refl, tt)))),
        (((λ e. ground (arith, e)), (refl, (refl, (refl, (refl, (refl, tt)))))), tt),
      )
      ((refl, refl, refl), ((refl, refl, refl), tt)) refl refl (omega arith) (omega arith)

-- a form without numbers leaves the old ones
read_form_test : (read_form [] blog).rate_limit.burst ≡ pos 20
unfolding read_form int_or form_value parse_int lookup
read_form_test = refl
