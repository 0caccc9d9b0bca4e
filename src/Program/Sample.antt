-- ===== src/Program/Sample.antt =====
-- A disk with a configuration and one site, and a toy coding in which a file is a domain.
use proxy_go.Prelude.{drop, Text, nat_eq, text_eq, true, false, Option, some, List, [], ◌∷◌, ◌++◌}
use proxy_go.Prelude.Int.{pos}
use proxy_go.Text.{codes}
use proxy_go.Config.Site.{Site, Url}
use proxy_go.Config.Loader.{Entry, Disk}
use proxy_go.Config.Store.{new_store}
use proxy_go.Metrics.Registry.{new_registry}
use proxy_go.Proxy.Router.{new_router}
use proxy_go.Program.{World}

abbrev pub slash : Text → Text → Text
slash dir name = dir ++ b'/' ∷ name

abbrev pub parse_any : Text → Option Url
parse_any s = some (record { scheme = codes "http"; host = drop 7 s; path = [] })

abbrev pub site_of : Text → Site
site_of domain = record {
  filename = [];
  domain = domain;
  aliases = [];
  upstreams = codes "local:1" ∷ [];
  enabled = true;
  tls = record { auto = true; cert_file = []; key_file = [] };
  http_to_https = true;
  web_socket = true;
  block_common_exploits = true;
  rate_limit = record { enabled = false; rps = pos 0; burst = pos 0 };
  custom_headers = [];
}

-- a site reads as its domain, in the file that is named after it
abbrev pub read_site : Text → Option Site
read_site b = some (site_of b)

abbrev pub one_entry : Text → Disk → Option (List Entry)
one_entry dir disk = some (record { name = codes "b.com.yml"; is_dir = false } ∷ [])

abbrev pub world : World (List Text)
world = record {
  router = new_router new_store new_registry false;
  disk = (codes "s/b.com.yml", codes "b.com") ∷ (codes "d/config.yml", codes "x") ∷ [];
  certs = [];
}
