-- ===== src/Acme/Tests.antt =====
-- Certificates for the names of one site.
use proxy_go.Prelude.{
  if◌then◌else◌, contains, ◌==◌, Text, text_beq, nat_eq, text_eq, ◌≡◌, refl, true, false, [], ◌∷◌,
  ◌++◌, map,
}
use proxy_go.Prelude.Int.{pos}
use proxy_go.Text.{codes}
use proxy_go.Config.Site.{Site}
use proxy_go.Acme.{
  Handshake, failed, leaf, pending, issuer_name, cert_info, list_certs, domains_from_sites,
}
use proxy_go.Acme.Domains.{any_auto, contains-domains_from_sites}

abbrev blog : Site
blog = record {
  filename = [];
  domain = codes "b.com";
  aliases = codes "www.b.com" ∷ [];
  upstreams = codes "local:1" ∷ [];
  enabled = true;
  tls = record { auto = true; cert_file = []; key_file = [] };
  http_to_https = true;
  web_socket = false;
  block_common_exploits = true;
  rate_limit = record { enabled = false; rps = pos 0; burst = pos 0 };
  custom_headers = [];
}

contains-domains_from_sites_test :
    contains (domains_from_sites (blog ∷ [])) (codes "www.b.com")
    ≡ any_auto (codes "www.b.com") (blog ∷ [])
contains-domains_from_sites_test = contains-domains_from_sites (blog ∷ []) (codes "www.b.com")

-- a site without certificates of its own, a pending one and an issued one
domains_from_sites_test :
    domains_from_sites (record blog { enabled = false } ∷ blog ∷ [])
    ≡ codes "b.com" ∷ codes "www.b.com" ∷ []
unfolding domains_from_sites
domains_from_sites_test = refl

abbrev answers : Text → Handshake
answers d =
    if d == codes "b.com"
    then leaf (codes "2027-01-01") (codes "LE" ∷ []) (codes "R3")
    else failed (codes "dns")

issuers_test :
    map (λ i. i.issuer ++ i.last_error) (list_certs answers (codes "b.com" ∷ codes "c.com" ∷ []))
    ≡ codes "LE" ∷ codes "pending: dns" ∷ []
unfolding list_certs cert_info pending issuer_name text_beq
issuers_test = refl
