-- ===== src/Proxy/Request/Tests.antt =====
-- A request that came through one proxy.
use proxy_go.Dict.{lookup}
use proxy_go.Prelude.{text_beq, nat_eq, text_eq, ◌≡◌, refl, true, none, [], ◌∷◌}
use proxy_go.Text.{codes, trim_space}
use proxy_go.Proxy.Request.{Request, get_header, x_forwarded_for, client_ip}
use proxy_go.Proxy.Request.Identity.{client_ip-first_hop}

abbrev hopped : Request
hopped = record {
  host = codes "shop.example";
  path = codes "/";
  request_uri = codes "/";
  user_agent = codes "curl";
  tls = true;
  header = (x_forwarded_for, codes " 1.2.3.4 , 5.6.7.8") ∷ [];
  remote_addr = codes "5.6.7.8:4000";
  url_scheme = [];
  url_host = [];
}

client_ip-first_hop_test : client_ip (λ s. none) hopped true ≡ trim_space (codes " 1.2.3.4 ")
unfolding get_header lookup text_beq
client_ip-first_hop_test =
    client_ip-first_hop (λ s. none) hopped (codes " 1.2.3.4 ") (codes " 5.6.7.8") refl refl
