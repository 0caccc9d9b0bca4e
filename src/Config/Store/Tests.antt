-- ===== src/Config/Store/Tests.antt =====
-- The store at two sites, the second with the first one's domain among its aliases. A pointer is a
-- site itself.
use proxy_go.Dict.{lookup, insert}
use proxy_go.Prelude.{
  contains, Text, text_beq, nat_eq, text_eq, String, ◌≡◌, refl, ◌↔◌, true, false, none, some, List,
  [], ◌∷◌, ◌++◌,
}
use proxy_go.Prelude.Int.{pos}
use proxy_go.Text.{codes, to_lower, last_index}
use proxy_go.Sort.{text_le, IsSorted}
use proxy_go.Config.Site.{Site, all_domains}
use proxy_go.Config.Store.{new_store, host_key, lookup_host, domains, replace}
use proxy_go.Config.Store.Routing.{
  IsOwner, NoneServes, lookup_host-replace_iff, lookup_host-replace-none_iff,
}
use proxy_go.Config.Store.Domains.{any_serves, domains-replace, lookup_host-port}

abbrev site_named : String → List Text → Site
site_named domain aliases = record {
  filename = [];
  domain = codes domain;
  aliases = aliases;
  upstreams = codes "localhost:3000" ∷ [];
  enabled = true;
  tls = record { auto = true; cert_file = []; key_file = [] };
  http_to_https = true;
  web_socket = false;
  block_common_exploits = true;
  rate_limit = record { enabled = false; rps = pos 0; burst = pos 0 };
  custom_headers = [];
}

abbrev shop : Site
shop = site_named "Shop.example" []

abbrev mall : Site
mall = site_named "mall.example" (codes "shop.example" ∷ [])

abbrev both : List Site
both = shop ∷ mall ∷ []

abbrev at_site : Site → Site
at_site s = s

lookup_test : lookup_host (replace at_site new_store both) (codes "SHOP.example:8080") ≡ some mall
unfolding lookup_host replace host_key to_lower last_index lookup all_domains insert text_beq
lookup_test = refl

lookup_host-replace_iff_example :
    (lookup_host (replace at_site new_store both) (codes "shop.example") ≡ some mall)
    ↔ IsOwner at_site (host_key (codes "shop.example")) both mall
lookup_host-replace_iff_example =
    lookup_host-replace_iff at_site new_store both (codes "shop.example") mall

lookup_host-replace-none_iff_test :
    (lookup_host (replace at_site new_store both) (codes "other.example") ≡ none)
    ↔ NoneServes at_site (host_key (codes "other.example")) both
lookup_host-replace-none_iff_test =
    lookup_host-replace-none_iff at_site new_store both (codes "other.example")

domains-replace_test :
    IsSorted text_le (domains (replace at_site new_store both))
    × (contains (domains (replace at_site new_store both)) (codes "mall.example")
        ≡ any_serves at_site (codes "mall.example") both)
domains-replace_test = domains-replace at_site new_store both (codes "mall.example")

lookup_host-port_test :
    (lookup_host (replace at_site new_store both) (codes "Mall.example" ++ b':' ∷ codes "443")
      ≡ lookup_host (replace at_site new_store both) (codes "Mall.example"))
    × (lookup_host (replace at_site new_store both) (to_lower (codes "Mall.example"))
        ≡ lookup_host (replace at_site new_store both) (codes "Mall.example"))
lookup_host-port_test =
    lookup_host-port (replace at_site new_store both) (codes "Mall.example") (codes "443") refl refl
