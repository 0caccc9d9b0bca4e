-- ===== src/Proxy/Answer/Failing.antt =====
-- What is recorded of a request whose upstream does not answer.
use proxy_go.Prelude.{nat_eq, text_eq}
use proxy_go.Prelude.Int.{pos}
use proxy_go.Config.Site.{Site}
use proxy_go.Proxy.Request.{Request}
use proxy_go.Proxy.Writer.{Response, observed}
use proxy_go.Proxy.Router.{Router}
use proxy_go.Proxy.Answer.{Reply, answered, failed, client_gone}

-- what is recorded of a reply
abbrev pub recorded : Reply → Response
recorded (answered ks) = observed ks
recorded failed = record { status = 502; bytes = pos 12 }
recorded client_gone = record { status = 200; bytes = pos 0 }
