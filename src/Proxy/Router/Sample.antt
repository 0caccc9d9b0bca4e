-- ===== src/Proxy/Router/Sample.antt =====
-- A router of two sites for the tests, of which the second lists the first one's domain among its
-- aliases.
use proxy_go.Prelude.{
  drop, Text, nat_eq, text_eq, String, true, false, Option, none, some, List, [], ◌∷◌,
}
use proxy_go.Prelude.Int.{pos}
use proxy_go.Text.{codes}
use proxy_go.Config.Site.{Site, Url}
use proxy_go.Metrics.Registry.{new_registry}
use proxy_go.Proxy.Writer.{Call, write_header, write}
use proxy_go.Proxy.Request.{Request, x_forwarded_proto}
use proxy_go.Proxy.Router.{Router, Clock, runtime_of, direct}

abbrev pub parse_any : Text → Option Url
parse_any s = some (record { scheme = codes "http"; host = drop 7 s; path = [] })

abbrev pub no_port : Text → Option Text
no_port s = none

abbrev pub all_fine : Request → List Call
all_fine req = write_header 200 ∷ write 5 ∷ []

abbrev pub site_of : String → List Text → Site
site_of domain aliases = record {
  filename = [];
  domain = codes domain;
  aliases = aliases;
  upstreams = codes "local:1" ∷ [];
  enabled = true;
  tls = record { auto = true; cert_file = []; key_file = [] };
  http_to_https = false;
  web_socket = false;
  block_common_exploits = true;
  rate_limit = record { enabled = false; rps = pos 0; burst = pos 0 };
  custom_headers = [];
}

abbrev pub shop : Site
shop = site_of "a.com" (codes "www.a.com" ∷ [])

abbrev pub mall : Site
mall = site_of "b.com" (codes "a.com" ∷ [])

abbrev pub node_url : Url
node_url = record { scheme = codes "http"; host = codes "local:1"; path = [] }

abbrev pub ready : Router
ready = record {
  store = record { sites = shop ∷ []; by_domain = (codes "a.com", shop) ∷ [] };
  registry = new_registry;
  trust_headers = false;
  heap =
      runtime_of shop (record { upstreams = node_url ∷ []; next = 0 })
      ∷ runtime_of mall (record { upstreams = node_url ∷ []; next = 7 })
      ∷ [];
  runtimes = (codes "a.com", 0) ∷ (codes "b.com", 1) ∷ [];
  stopping = false;
}

abbrev pub clock : Clock
clock = record { now = 5_000_000_000; now_sec = 5; latency = 2_000_000 }

abbrev pub asked : String → Request
asked host = record {
  host = codes host;
  path = codes "/";
  request_uri = codes "/";
  user_agent = codes "curl";
  tls = false;
  header = (x_forwarded_proto, codes "https") ∷ [];
  remote_addr = codes "1.2.3.4";
  url_scheme = [];
  url_host = [];
}

abbrev pub what_is_sent : Request
what_is_sent = direct no_port false (some node_url) (asked "a.com")
