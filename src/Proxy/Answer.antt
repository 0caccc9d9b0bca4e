-- ===== src/Proxy/Answer.antt =====
-- internal/proxy/router.go: what `buildReverseProxy` does with an answer of the upstream, which it gives
-- the custom headers of the site, and with a failure.
pub mod Failing
pub mod Headers
use proxy_go.Prelude.{Text, nat_eq, text_eq, List, [], ◌∷◌}
use proxy_go.Dict.{Dict, insert}
use proxy_go.Proxy.Writer.{Call, write_header, write}

-- `canonical` is the spelling that `Header.Set` gives a name. The map of the custom headers is gone
-- through in any order, here the list's.
unfoldable pub modify_response : (Text → Text) → Dict Text Text → Dict Text Text → Dict Text Text
modify_response canonical [] header = header
modify_response canonical ((k, v) ∷ custom) header =
    modify_response canonical custom (insert (canonical k) v header)

-- What comes back for a request: an answer, as the calls that copy it to the writer, or an error, which
-- may be that the client has gone.
pub data Reply : Type 0 where
  answered : List Call → Reply
  failed client_gone : Reply

-- the calls of the `ErrorHandler`; the text of `http.Error` ends in a line feed
error_handler : Reply → List Call
error_handler (answered ks) = []
error_handler client_gone = []
error_handler failed = write_header 502 ∷ write 12 ∷ []

-- what the reverse proxy calls of the writer
unfoldable pub calls_of : Reply → List Call
unfolding error_handler
calls_of (answered ks) = ks
calls_of failed = error_handler failed
calls_of client_gone = error_handler client_gone
