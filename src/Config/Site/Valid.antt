-- ===== src/Config/Site/Valid.antt =====
-- What a nil error of `Validate` means.
use proxy_go.Prelude.{
  if◌then◌else◌, Bool-cases, Option-cases, take-append, drop-suc-append, All, contains,
  contains-append, Text, nat_eq, text_eq, ◌≡◌, refl, ◌≢◌, ◌↔◌, inl, inr, Bool, true, false, not,
  Option, none, some, List, [], ◌∷◌, ◌++◌, arith,
}
use proxy_go.Prelude.Int.{◌≤ℤ◌, pos}
use proxy_go.Text.{
  codes, trim_space, contains_text, last_index, last_index-append, last_index_sound,
}
use proxy_go.Config.Site.{
  Site, RateLimitConfig, Url, good_parts, parsed_host, split_host_port, valid_upstream,
  check_rate_limit, first_invalid, validate,
}

-- host:port, cut at the last colon
pub record IsHostPort (s : Text) : Type 0 where
  pub host : Text
  pub port : Text
  pub parts : s ≡ host ++ b':' ∷ port
  pub no_colon : contains port b':' ≡ false
  pub host_given : host ≢ []
  pub port_given : port ≢ []

split_host_port_sound :
    (s h p : Text)
    → split_host_port s ≡ some (h, p)
    → (s ≡ h ++ b':' ∷ p) × (contains p b':' ≡ false)
unfolding split_host_port
split_host_port_sound s h p e = elim (Option-cases (last_index s b':')) [
  | inl missing ↦ absurd (ground arith)
  | inr (i, found) ↦ ground (arith, last_index_sound s b':' i found)
]

split_host_port-append :
    (h p : Text) → contains p b':' ≡ false → split_host_port (h ++ b':' ∷ p) ≡ some (h, p)
unfolding split_host_port
split_host_port-append h p n =
    ground (arith, last_index-append h p b':' n, take-append h (b':' ∷ p), drop-suc-append h b':' p)

good_parts_iff : (h p : Text) → (good_parts (some (h, p)) ≡ true) ↔ ((h ≢ []) × (p ≢ []))
unfolding good_parts
good_parts_iff h p = ground arith

contains-colon : (s : Text) → contains_text s (codes ":") ≡ contains s b':'
unfolding contains_text
contains-colon [] = refl
contains-colon (c ∷ s) = ground (arith, contains-colon s)

-- the test of an address with no scheme
abbrev host_port_test : Text → Bool
host_port_test s =
    if not (contains_text s (codes ":")) then false else good_parts (split_host_port s)

IsHostPort-of_test : (s : Text) → host_port_test s ≡ true → IsHostPort s
IsHostPort-of_test s h = elim (Option-cases (split_host_port s)) [
  | inl missing ↦ absurd (unfold good_parts in ground arith)
  | inr ((a, b), found) ↦
      let (parts, none_left) = split_host_port_sound s a b found in
      let good : good_parts (some (a, b)) ≡ true = ground arith in
      let (host_given, port_given) = (good_parts_iff a b).0 good in
      record {
        host = a;
        port = b;
        parts = parts;
        no_colon = none_left;
        host_given = host_given;
        port_given = port_given;
      }
]

host_port_test_of_IsHostPort : (s : Text) → IsHostPort s → host_port_test s ≡ true
host_port_test_of_IsHostPort s v = ground (
  arith,
  contains-colon s,
  contains-append v.host (b':' ∷ v.port) b':',
  split_host_port-append v.host v.port v.no_colon,
  good_parts_iff v.host v.port,
)

IsHostPort-iff : (s : Text) → (host_port_test s ≡ true) ↔ IsHostPort s
IsHostPort-iff s = (IsHostPort-of_test s, host_port_test_of_IsHostPort s)

check_rate_limit_sound :
    (r : RateLimitConfig)
    → check_rate_limit r ≡ none
    → r.enabled ≡ true
    → (pos 1 ≤ℤ r.rps) × (pos 0 ≤ℤ r.burst)
unfolding check_rate_limit
check_rate_limit_sound r h e = ground arith

check_rate_limit-none :
    (r : RateLimitConfig)
    → (r.enabled ≡ true → pos 1 ≤ℤ r.rps)
    → (r.enabled ≡ true → pos 0 ≤ℤ r.burst)
    → check_rate_limit r ≡ none
unfolding check_rate_limit
check_rate_limit-none r p q = elim (Bool-cases r.enabled) [
  | inl on ↦ let fits = p on in let room = q on in ground arith
  | inr off ↦ ground arith
]

module _ (parse_url : Text → Option Url) where
  url_iff :
      (s : Text)
      → (parsed_host parse_url (parse_url s) ≡ true)
        ↔ ((u : Url) × (parse_url s ≡ some u) × (u.host ≢ []))
  unfolding parsed_host
  url_iff s = elim (Option-cases (parse_url s)) [
    | inl failed ↦ rw failed ((λ h. absurd (cc h)), λ (u, e, _). absurd (cc e))
    | inr (u, parsed) ↦ rw parsed ((λ h. (u, refl, ground arith)), λ (v, e, given). ground arith)
  ]

  -- An address with a scheme is what `url.Parse` reads with a host, any other is host:port.
  abbrev pub IsUpstream : Text → Type 0
  IsUpstream s =
      if contains_text s (codes "://")
      then ((u : Url) × (parse_url s ≡ some u) × (u.host ≢ []))
      else IsHostPort s

  pub record IsValid (s : Site) : Type 0 where
    pub domain_given : trim_space s.domain ≢ []
    pub upstream_given : s.upstreams ≢ []
    pub upstreams_valid : All IsUpstream s.upstreams
    pub rate_positive : s.rate_limit.enabled ≡ true → (pos 1 ≤ℤ s.rate_limit.rps)
    pub burst_nonneg : s.rate_limit.enabled ≡ true → (pos 0 ≤ℤ s.rate_limit.burst)

  pub valid_upstream_iff : (s : Text) → (valid_upstream parse_url s ≡ true) ↔ IsUpstream s
  unfolding valid_upstream
  valid_upstream_iff s = elim (Bool-cases (contains_text s (codes "://"))) [
    | inl with_scheme ↦ rw with_scheme (url_iff s)
    | inr bare ↦ rw bare (IsHostPort-iff s)
  ]

  first_invalid_iff : (us : List Text) → (first_invalid parse_url us ≡ none) ↔ All IsUpstream us
  unfolding first_invalid
  first_invalid_iff [] = ground arith
  first_invalid_iff (u ∷ us) = ground (arith, valid_upstream_iff u, first_invalid_iff us)

  validate_sound : (s : Site) → validate parse_url s ≡ none → IsValid s
  unfolding validate
  validate_sound s h =
      let upstreams : first_invalid parse_url s.upstreams ≡ none = ground arith in
      let rate : check_rate_limit s.rate_limit ≡ none = ground arith in
      record {
        domain_given = ground arith;
        upstream_given = ground arith;
        upstreams_valid = (first_invalid_iff s.upstreams).0 upstreams;
        rate_positive = λ e. (check_rate_limit_sound s.rate_limit rate e).0;
        burst_nonneg = λ e. (check_rate_limit_sound s.rate_limit rate e).1;
      }

  -- `Validate` returns a nil error exactly when the site is valid.
  pub validate_iff : (s : Site) → (validate parse_url s ≡ none) ↔ IsValid s
  unfolding validate
  validate_iff s = (
    λ h. validate_sound s h,
    λ v. ground (
      arith,
      v.domain_given,
      v.upstream_given,
      (first_invalid_iff s.upstreams).1 v.upstreams_valid,
      check_rate_limit-none s.rate_limit v.rate_positive v.burst_nonneg,
    ),
  )
