-- ===== src/Config/Site/Tests.antt =====
-- Runs of the site functions on small inputs.
use proxy_go.Prelude.{
  Text, nat_eq, text_eq, ◌≡◌, refl, ◌↔◌, true, false, Option, none, some, [], ◌∷◌,
}
use proxy_go.Prelude.Int.{pos}
use proxy_go.Text.{codes, to_lower, trim_space, contains_text, last_index, replace_all}
use proxy_go.Config.Site.{
  Site, Url, invalid_upstream, split_host_port, valid_upstream, validate, sanitize_filename,
}
use proxy_go.Config.Site.Valid.{IsValid, validate_iff}
use proxy_go.Config.Site.Filename.{IsFlat, sanitize_filename-IsFlat}

text : Unit {0}
unfolding to_lower replace_all
text = tt

sanitize_test : sanitize_filename (codes "A/..b...") ≡ codes "a__b_."
unfolding sanitize_filename text
sanitize_test = refl

abbrev no_url : Text → Option Url
no_url s = none

abbrev blog : Site
blog = record {
  filename = codes "blog.yml";
  domain = codes "Blog.example";
  aliases = codes "www.blog.example" ∷ [];
  upstreams = codes "localhost:3000" ∷ [];
  enabled = true;
  tls = record { auto = true; cert_file = []; key_file = [] };
  http_to_https = true;
  web_socket = false;
  block_common_exploits = true;
  rate_limit = record { enabled = true; rps = pos 5; burst = pos 2 };
  custom_headers = [];
}

-- a site with an address without a port, and the address is named in the error
validate_test :
    validate no_url (record blog { upstreams = codes "localhost" ∷ [] })
    ≡ some (invalid_upstream (codes "localhost"))
unfolding validate valid_upstream contains_text trim_space split_host_port last_index
validate_test = refl

validate_iff_example : (validate no_url blog ≡ none) ↔ IsValid no_url blog
validate_iff_example = validate_iff no_url blog

sanitize_filename-IsFlat_test : IsFlat (sanitize_filename (codes "../Etc/passwd"))
sanitize_filename-IsFlat_test = sanitize_filename-IsFlat (codes "../Etc/passwd")
