-- ===== src/Server/Ending.antt =====
-- Once `Run` has something to wake up for, it can come to its end.
use proxy_go.Prelude.{Text, nat_eq, text_eq, ◌≡◌, true, Option, List}
use proxy_go.Config.Site.{Url}
use proxy_go.Proxy.Request.{Request}
use proxy_go.Proxy.Writer.{Call}
use proxy_go.Proxy.Router.{Router}
use proxy_go.Server.{returned, Life, Step}

module _ (parse_url : Text → Option Url) (split_remote : Text → Option Text)
    (upstream : Request → List Call) where
  -- any number of steps
  pub data Steps : Life → Life → Type 0 where
    here : {s : Life} → Steps s s
    then_on :
        {s s' s'' : Life} → Step parse_url split_remote upstream s s' → Steps s' s'' → Steps s s''

  -- `Run` returns after some steps, with the router stopped
  abbrev pub Returns : Life → Type 0
  Returns s = (end : Life) × Steps s end × (end.phase ≡ returned) × (end.router.stopping ≡ true)
