-- ===== src/Ui/Form.antt =====
-- internal/ui/ui.go: how `createOrUpdateSite` reads a site from its form, with `splitWords` and
-- `splitLines`.
pub mod RoundTrip
mod Tests
use proxy_go.Prelude.{
  if◌then◌else◌, is_empty, ◌==◌, Text, nat_eq, text_eq, Bool, true, false, none, some, List, [],
  ◌∷◌,
}
use proxy_go.Prelude.Int.{ℤ, pos}
use proxy_go.Dict.{Dict, lookup}
use proxy_go.Text.{codes, trim_space, fields, split_all}
use proxy_go.Decimal.{parse_int}
use proxy_go.Config.Site.{Site}

-- the values of a form by their names, where a missing one is empty
abbrev pub Values : Type 0
Values = Dict Text Text

unfoldable pub form_value : Text → Values → Text
form_value name f = elim (lookup name f) [ none ↦ [] | some v ↦ v ]

not_empty : List Text → List Text
not_empty [] = []
not_empty (f ∷ fs) = let rest = not_empty fs in if is_empty f then rest else f ∷ rest

unfoldable pub split_words : Text → List Text
unfolding not_empty
split_words s = not_empty (fields s)

trimmed_lines : List Text → List Text
trimmed_lines [] = []
trimmed_lines (l ∷ ls) =
    let rest = trimmed_lines ls in let l' = trim_space l in if is_empty l' then rest else l' ∷ rest

unfoldable pub split_lines : Text → List Text
unfolding trimmed_lines
split_lines s = trimmed_lines (split_all s 10)

-- the zero value
abbrev pub blank_site : Site
blank_site = record {
  filename = [];
  domain = [];
  aliases = [];
  upstreams = [];
  enabled = false;
  tls = record { auto = false; cert_file = []; key_file = [] };
  http_to_https = false;
  web_socket = false;
  block_common_exploits = false;
  rate_limit = record { enabled = false; rps = pos 0; burst = pos 0 };
  custom_headers = [];
}

-- what the form for a new site starts with
abbrev pub new_form_site : Site
new_form_site = record blank_site {
  enabled = true;
  http_to_https = true;
  web_socket = true;
  block_common_exploits = true;
  tls = record { auto = true; cert_file = []; key_file = [] };
}

is_on : Text → Values → Bool
unfolding form_value
is_on name f = form_value name f == codes "on"

-- a number that does not parse leaves the old one; `Atoi` reads an int of 64 bits
int_or : ℤ → Text → ℤ
int_or old s = elim (parse_int s) [ none ↦ old | some v ↦ v ]

-- the site of a form, over the zero value or the site that is edited
unfoldable pub read_form : Values → Site → Site
unfolding form_value split_words split_lines is_on int_or
read_form f s = record s {
  domain = trim_space (form_value (codes "domain") f);
  aliases = split_words (form_value (codes "aliases") f);
  upstreams = split_lines (form_value (codes "upstreams") f);
  enabled = is_on (codes "enabled") f;
  http_to_https = is_on (codes "http_to_https") f;
  web_socket = is_on (codes "websocket") f;
  block_common_exploits = is_on (codes "block_common_exploits") f;
  tls = record s.tls { auto = is_on (codes "tls_auto") f };
  rate_limit = record {
    enabled = is_on (codes "rl_enabled") f;
    rps = int_or s.rate_limit.rps (form_value (codes "rl_rps") f);
    burst = int_or s.rate_limit.burst (form_value (codes "rl_burst") f);
  };
}
