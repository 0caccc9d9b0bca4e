-- ===== src/Proxy/Router/Director.antt =====
-- What the upstream is told of the client.
use proxy_go.Text.{codes}
use proxy_go.Dict.{lookup-insert}
use proxy_go.Proxy.Router.{direct}
use proxy_go.Proxy.Request.{
  Request, get_header, set_header, x_real_ip, x_forwarded_host, x_forwarded_proto, peer, client_ip,
  scheme_of,
}
use proxy_go.Config.Site.{Url}
use proxy_go.Prelude.{
  if◌then◌else◌, is_empty_iff, ◌==◌, Text, text_beq, nat_eq, text_eq, ◌≡◌, refl, ◌∙◌, ◌≢◌, Bool,
  false, Option, some, [], arith,
}

get_header-set_header :
    (name other v : Text) (r : Request)
    → get_header other (set_header name v r) ≡ (if name == other then v else get_header other r)
unfolding get_header set_header
get_header-set_header name other v r = ground (arith, lookup-insert name other v r.header)

tls-set_header : (name v : Text) (r : Request) → (set_header name v r).tls ≡ r.tls
unfolding set_header
tls-set_header name v r = refl

peer-set_header :
    (split_remote : Text → Option Text) (name v : Text) (r : Request)
    → peer split_remote (set_header name v r) ≡ peer split_remote r
unfolding peer set_header
peer-set_header split_remote name v r = refl

client_ip_untrusted :
    (split_remote : Text → Option Text) (r : Request)
    → client_ip split_remote r false ≡ peer split_remote r
unfolding client_ip
client_ip_untrusted split_remote r = refl

ruleset header_laws = (get_header-set_header, peer-set_header, client_ip_untrusted)

scheme_of-set_header :
    (v : Text) (r : Request) → scheme_of (set_header x_forwarded_host v r) ≡ scheme_of r
unfolding scheme_of text_beq
scheme_of-set_header v r = simp (get_header-set_header, tls-set_header)

-- the target and the path play no part in the scheme
scheme_of-sent :
    (r : Request) (scheme host path : Text)
    → scheme_of (record r { url_scheme = scheme; url_host = host; path = path }) ≡ scheme_of r
unfolding scheme_of get_header
scheme_of-sent r scheme host path = refl

module _ (split_remote : Text → Option Text) (target : Url) (req : Request) where
  proto-direct :
      (trust : Bool)
      → get_header x_forwarded_proto (direct split_remote trust (some target) req) ≡ scheme_of req
  unfolding direct text_beq
  proto-direct trust = simp (get_header-set_header, scheme_of-set_header) (scheme_of-sent req _ _ _)

  -- Without trust the upstream is told the peer of the connection and the host that was asked for,
  -- and "https" for a TLS connection, whatever headers the client sent.
  pub direct-untrusted :
      (get_header x_real_ip (direct split_remote false (some target) req) ≡ peer split_remote req)
      × (get_header x_forwarded_host (direct split_remote false (some target) req) ≡ req.host)
      × (get_header x_forwarded_proto (direct split_remote false (some target) req)
          ≡ (if req.tls then codes "https" else scheme_of req))
  unfolding direct text_beq
  direct-untrusted = (
    simp header_laws (unfold peer in refl),
    simp header_laws,
    proto-direct false ∙ (unfold scheme_of in ground arith),
  )

  -- On a plain connection the upstream is told the scheme that the client wrote into
  -- X-Forwarded-Proto, if it wrote one, whether headers are trusted or not.
  pub direct-client_proto :
      (trust : Bool)
      → req.tls ≡ false
      → get_header x_forwarded_proto req ≢ []
      → get_header x_forwarded_proto (direct split_remote trust (some target) req)
        ≡ get_header x_forwarded_proto req
  direct-client_proto trust plain given =
      proto-direct trust
      ∙ (unfold scheme_of in ground (arith, is_empty_iff (get_header x_forwarded_proto req)))
