-- ===== src/Server/Tests.antt =====
-- A signal comes, and `Run` is to wake up.
use proxy_go.Prelude.{Text, nat_eq, text_eq, true, false, Option, none, List, [], ◌∷◌}
use proxy_go.Config.Site.{Url}
use proxy_go.Config.Store.{new_store}
use proxy_go.Metrics.Registry.{new_registry}
use proxy_go.Proxy.Request.{Request}
use proxy_go.Proxy.Writer.{Call, write_header}
use proxy_go.Proxy.Router.{Router, new_router}
use proxy_go.Server.{Life, cancel, launch}
use proxy_go.Server.Draining.{IsOrderly, Reach, launched, next, Reach-IsOrderly}

abbrev no_urls : Text → Option Url
no_urls s = none

abbrev no_port : Text → Option Text
no_port s = none

abbrev all_fine : Request → List Call
all_fine req = write_header 200 ∷ []

abbrev router : Router
router = new_router new_store new_registry false

abbrev signalled : Life
signalled = record (launch router) { cancelled = true }

signalled-Reach : Reach no_urls no_port all_fine router signalled
signalled-Reach = next launched cancel

Reach-IsOrderly_example : IsOrderly signalled
Reach-IsOrderly_example = Reach-IsOrderly no_urls no_port all_fine signalled-Reach
