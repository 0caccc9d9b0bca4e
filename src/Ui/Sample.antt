-- ===== src/Ui/Sample.antt =====
-- A small program for the tests of the admin interface: one site, one admin, and a toy coding of
-- sites in which a site is its domain.
use proxy_go.Prelude.{
  drop, ◌==◌, Text, nat_eq, text_eq, ℕ, ◌+◌, refl, Bool, true, false, none, some, [], ◌∷◌, ◌++◌,
}
use proxy_go.Prelude.Int.{pos}
use proxy_go.Text.{codes}
use proxy_go.Config.Site.{Site}
use proxy_go.Metrics.Registry.{new_registry}
use proxy_go.Auth.{Crypto, Manager, issue_cookie}
use proxy_go.Ui.Form.{Values}
use proxy_go.Ui.Types.{State, Server, UiRequest, Moment}

abbrev pub toy : Crypto
toy = record {
  hmac = λ key payload. key ++ payload;
  bcrypt_ok = λ hash password. hash == password;
  encode = λ s. s;
  decode = λ s. some s;
  decode-encode = λ s. refl;
}

abbrev pub alice_only : Manager
alice_only = record {
  admins = (codes "alice", codes "pw") ∷ [];
  secret = codes "0123456789abcdef0123456789abcdef";
}

abbrev pub alice_cookie : Text
alice_cookie = (issue_cookie toy (codes "Alice") true 1000 alice_only).value

abbrev pub site_of : Text → Site
site_of domain = record {
  filename = [];
  domain = domain;
  aliases = [];
  upstreams = codes "local:1" ∷ [];
  enabled = true;
  tls = record { auto = true; cert_file = []; key_file = [] };
  http_to_https = true;
  web_socket = true;
  block_common_exploits = true;
  rate_limit = record { enabled = false; rps = pos 0; burst = pos 0 };
  custom_headers = [];
}

abbrev pub blog : Site
blog = record (site_of (codes "b.com")) { filename = codes "b.com.yml" }

-- the rest of the program is how often it has been told of a reload
abbrev pub server : Server ℕ
server = record {
  crypto = toy;
  manager = alice_only;
  get_certificate = none;
  registry = λ w. new_registry;
  sites_dir = codes "s";
  version = codes "dev";
  has_callback = true;
  on_reload = λ sites w. w + 1;
  parse_url = λ s. none;
  join = λ dir name. dir ++ b'/' ∷ name;
  base = λ path. drop 2 path;
  clean_path = λ path. path;
  marshal = λ s. some s.domain;
  unmarshal = λ b. some (site_of b);
  read_dir = λ dir disk. some (record { name = codes "b.com.yml"; is_dir = false } ∷ []);
}

abbrev pub state : State ℕ
state = record {
  heap = blog ∷ [];
  store = record { sites = 0 ∷ []; by_domain = (codes "b.com", 0) ∷ [] };
  disk = (codes "s/b.com.yml", codes "b.com") ∷ [];
  world = 0;
}

abbrev pub request_to : Bool → Text → Values → UiRequest
request_to is_post path form = record {
  path = path;
  is_post = is_post;
  form_ok = true;
  form = form;
  query_next = [];
  cookie = some alice_cookie;
  tls = true;
}

abbrev pub moment_with : Bool → Moment
moment_with write_ok = record {
  now = 2000;
  uptime = 5;
  faults = record { write_ok = write_ok; left = []; rename_ok = true };
}
