-- ===== src/Acme/Domains.antt =====
-- Which names get a certificate, and what is shown of each.
use proxy_go.Prelude.{
  contains, contains-append, Text, nat_eq, text_eq, ◌≡◌, refl, Bool, false, ◌&&◌, ◌||◌, List, [],
  ◌∷◌, arith,
}
use proxy_go.Config.Site.{Site, all_domains}
use proxy_go.Acme.{domains_from_sites}

-- an enabled site with automatic TLS has the name
abbrev pub any_auto : Text → List Site → Bool
any_auto d [] = false
any_auto d (s ∷ sites) = (s.enabled && s.tls.auto && contains (all_domains s) d) || any_auto d sites

-- Certificates are asked for exactly the names of the enabled sites that want them.
pub contains-domains_from_sites :
    (sites : List Site) (d : Text) → contains (domains_from_sites sites) d ≡ any_auto d sites
unfolding domains_from_sites
contains-domains_from_sites [] d = refl
contains-domains_from_sites (s ∷ sites) d = ground (
  arith,
  contains-append (all_domains s) (domains_from_sites sites) d,
  contains-domains_from_sites sites d,
)
