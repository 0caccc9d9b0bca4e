-- ===== src/Proxy/Request/Identity.antt =====
-- Which client a request is charged to.
use proxy_go.Text.{trim_space, index_byte, index_byte-append}
use proxy_go.Prelude.{
  length, is_empty, take, is_empty-append, take-append, contains, Text, nat_eq, text_eq, ◌≡◌, ap,
  ◌∙◌, true, false, Option, ◌∷◌, ◌++◌, arith,
}
use proxy_go.Proxy.Request.{Request, get_header, x_forwarded_for, client_ip}

module _ (split_remote : Text → Option Text) where
  -- With trust it is the first hop of X-Forwarded-For, up to the comma, with no space around it.
  pub client_ip-first_hop :
      (r : Request) (hop rest : Text)
      → get_header x_forwarded_for r ≡ hop ++ b',' ∷ rest
      → contains hop b',' ≡ false
      → client_ip split_remote r true ≡ trim_space hop
  unfolding client_ip
  client_ip-first_hop r hop rest e h = ground (
    arith,
    ap is_empty e ∙ is_empty-append hop b',' rest,
    ap (λ t. index_byte t b',') e ∙ index_byte-append hop rest b',' h,
    ap (take (length hop)) e ∙ take-append hop (b',' ∷ rest),
  )
