-- ===== src/Config/Site.antt =====
-- internal/config/config.go: `Site` with its validation, and the name of a site's file.
pub mod Valid
pub mod Filename
mod Tests
use proxy_go.Prelude.{
  if◌then◌else◌, is_empty, take, drop, Text, nat_eq, text_eq, suc, ◌/◌, Bool, false, not, ◌||◌,
  Option, none, some, List, [], ◌∷◌,
}
use proxy_go.Prelude.Int.{ltb_ℤ, ℤ, pos}
use proxy_go.Dict.{Dict}
use proxy_go.Text.{codes, to_lower, trim_space, contains_text, last_index, replace_all}

pub record TlsConfig : Type 0 where
  pub auto : Bool
  pub cert_file : Text
  pub key_file : Text

pub record RateLimitConfig : Type 0 where
  pub enabled : Bool
  pub rps : ℤ
  pub burst : ℤ

pub record Site : Type 0 where
  pub filename : Text
  pub domain : Text
  pub aliases : List Text
  pub upstreams : List Text
  pub enabled : Bool
  pub tls : TlsConfig
  pub http_to_https : Bool
  pub web_socket : Bool
  pub block_common_exploits : Bool
  pub rate_limit : RateLimitConfig
  pub custom_headers : Dict Text Text

-- what the program reads of a `*url.URL`
pub record Url : Type 0 where
  pub scheme : Text
  pub host : Text
  pub path : Text

pub data SiteError : Type 0 where
  domain_required upstream_required rps_not_positive burst_negative : SiteError
  invalid_upstream : Text → SiteError

unfoldable pub all_domains : Site → List Text
all_domains s = s.domain ∷ s.aliases

-- `none` is the error "no port"
unfoldable pub split_host_port : Text → Option (Text × Text)
split_host_port s = elim (last_index s b':') [
  | none ↦ none
  | some i ↦ some (take i s, drop (suc i) s)
]

-- the tests on what `splitHostPort` returned
good_parts : Option (Text × Text) → Bool
good_parts none = false
good_parts (some (host, port)) = not (is_empty host || is_empty port)

check_rate_limit : RateLimitConfig → Option SiteError
check_rate_limit r =
    if r.enabled
    then (if not (ltb_ℤ (pos 0) r.rps)
        then some rps_not_positive
        else if ltb_ℤ r.burst (pos 0)
        then some burst_negative
        else none)
    else none

or_else : Option SiteError → Option SiteError → Option SiteError
or_else none e = e
or_else (some e) _ = some e

-- `url.Parse` is a parameter; `none` is an error.
module _ (parse_url : Text → Option Url) where
  parsed_host : Option Url → Bool
  parsed_host none = false
  parsed_host (some u) = not (is_empty u.host)

  unfoldable pub valid_upstream : Text → Bool
  unfolding parsed_host good_parts
  valid_upstream s =
      if contains_text s (codes "://")
      then parsed_host (parse_url s)
      else if not (contains_text s (codes ":"))
      then false
      else good_parts (split_host_port s)

  -- the loop over the upstreams: the first invalid one
  first_invalid : List Text → Option SiteError
  first_invalid [] = none
  first_invalid (u ∷ us) = if valid_upstream u then first_invalid us else some (invalid_upstream u)

  -- `none` is a nil error
  unfoldable pub validate : Site → Option SiteError
  unfolding check_rate_limit first_invalid or_else
  validate s =
      if is_empty (trim_space s.domain)
      then some domain_required
      else if is_empty s.upstreams
      then some upstream_required
      else or_else (first_invalid s.upstreams) (check_rate_limit s.rate_limit)

unfoldable pub sanitize_filename : Text → Text
sanitize_filename domain =
    let lower = to_lower domain in
    let no_slash = replace_all lower (codes "/") (codes "_") in
    let no_backslash = replace_all no_slash (92 ∷ []) (codes "_") in
    replace_all no_backslash (codes "..") (codes "_")
