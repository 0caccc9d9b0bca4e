-- ===== src/Acme.antt =====
-- internal/acme/acme.go: which domains get certificates, and what the certificate page shows.
-- certmagic is a parameter: `W` is its state.
pub mod Domains
mod Tests
use proxy_go.Prelude.{
  if◌then◌else◌, is_empty, Text, nat_eq, text_eq, Bool, true, not, ◌||◌, Option, none, some, List,
  [], ◌∷◌, ◌++◌,
}
use proxy_go.Text.{codes}
use proxy_go.Config.Site.{Site, all_domains}

-- `certs_path` is where the storage puts its files.
pub record Manager : Type 0 where
  pub email : Text
  pub dir : Text
  pub certs_path : Text

-- `none` is the error for a missing email; `clean` is `filepath.Clean`.
unfoldable pub new_manager : (Text → Text) → Text → Text → Text → Option Manager
new_manager clean certs_dir email directory =
    if is_empty email
    then none
    else some (record { email = email; dir = directory; certs_path = clean certs_dir })

-- `manage` is `ManageAsync`, whose error is only logged
unfoldable pub sync_domains : {W : Type 0} → (List Text → W → W) → List Text → W → W
sync_domains manage domains w = if is_empty domains then w else manage domains w

-- what `GetCertificate` answers: an error, no certificate or none that is parsed, or the leaf
pub data Handshake : Type 0 where
  failed : Text → Handshake
  no_leaf : Handshake
  leaf : Text → List Text → Text → Handshake

pub record CertInfo : Type 0 where
  pub domain : Text
  pub not_after : Text
  pub issuer : Text
  pub managed : Bool
  pub last_error : Text

pending : Text → Text → CertInfo
pending domain why = record {
  domain = domain;
  not_after = [];
  issuer = [];
  managed = true;
  last_error = why;
}

-- the first organization, or the common name if there is none
issuer_name : List Text → Text → Text
issuer_name [] common_name = common_name
issuer_name (o ∷ os) common_name = o

unfoldable pub cert_info : Text → Handshake → CertInfo
unfolding pending issuer_name
cert_info d (failed e) = pending d (codes "pending: " ++ e)
cert_info d no_leaf = pending d (codes "pending issuance")
cert_info d (leaf not_after organization common_name) = record {
  domain = d;
  not_after = not_after;
  issuer = issuer_name organization common_name;
  managed = true;
  last_error = [];
}

unfoldable pub list_certs : (Text → Handshake) → List Text → List CertInfo
unfolding cert_info
list_certs get_certificate [] = []
list_certs get_certificate (d ∷ ds) =
    cert_info d (get_certificate d) ∷ list_certs get_certificate ds

unfoldable pub domains_from_sites : List Site → List Text
unfolding all_domains
domains_from_sites [] = []
domains_from_sites (s ∷ sites) =
    let rest = domains_from_sites sites in
    if not s.enabled || not s.tls.auto then rest else all_domains s ++ rest
