-- ===== src/Proxy/Request.antt =====
-- The parts of an `http.Request` that the proxy reads and writes, `ClientIP` of
-- internal/proxy/ratelimit.go and `schemeOf` of internal/proxy/router.go.
pub mod Identity
mod Tests
use proxy_go.Text.{codes, trim_space, index_byte}
use proxy_go.Dict.{Dict, lookup, insert}
use proxy_go.Prelude.{
  if◌then◌else◌, is_empty, take, Text, nat_eq, text_eq, Bool, not, ◌&&◌, Option, none, some, [],
}

-- The names of headers are in their canonical form, with one value each.
pub record Request : Type 0 where
  pub host : Text
  pub path : Text
  pub request_uri : Text
  pub user_agent : Text
  pub tls : Bool
  pub header : Dict Text Text
  pub remote_addr : Text
  pub url_scheme : Text
  pub url_host : Text

-- `Header.Get`: a missing header is empty
unfoldable pub get_header : Text → Request → Text
get_header name r = elim (lookup name r.header) [ none ↦ [] | some v ↦ v ]

unfoldable pub set_header : Text → Text → Request → Request
set_header name v r = record r { header = insert name v r.header }

abbrev pub x_forwarded_for : Text
x_forwarded_for = codes "X-Forwarded-For"

abbrev pub x_real_ip : Text
x_real_ip = codes "X-Real-Ip"

abbrev pub x_forwarded_host : Text
x_forwarded_host = codes "X-Forwarded-Host"

abbrev pub x_forwarded_proto : Text
x_forwarded_proto = codes "X-Forwarded-Proto"

-- `split_remote` is the host of `net.SplitHostPort`; `none` is an error.
module _ (split_remote : Text → Option Text) where
  unfoldable pub peer : Request → Text
  peer r = elim (split_remote r.remote_addr) [ none ↦ r.remote_addr | some host ↦ host ]

  unfoldable pub client_ip : Request → Bool → Text
  unfolding peer
  client_ip r trust =
      let xff = get_header x_forwarded_for r in
      let xri = get_header x_real_ip r in
      if trust && not (is_empty xff)
      then elim (index_byte xff b',') [ some i ↦ trim_space (take i xff) | none ↦ trim_space xff ]
      else if trust && not (is_empty xri)
      then trim_space xri
      else peer r

unfoldable pub scheme_of : Request → Text
scheme_of r =
    if r.tls
    then codes "https"
    else (let xf = get_header x_forwarded_proto r in if not (is_empty xf) then xf else codes "http")
