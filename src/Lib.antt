-- ===== src/Lib.antt =====
-- JobCloud, a reverse proxy in one binary: sites are read from YAML files, requests are routed by
-- their Host header to a pool of upstreams, with a rate limit for each site and client, live
-- metrics, and an admin interface behind signed session cookies.
--
-- The parts, and the files that model them:
-- - Config.Site: internal/config/config.go, `Site` with `AllDomains`, `Validate`, `validUpstream`,
--   `splitHostPort` and `sanitizeFilename`. Config.Site.Valid and Config.Site.Filename hold the
--   theorems.
-- - Config.Loader: internal/config/config.go, `LoadGlobal` with `applyDefaults`, `LoadSites`,
--   `SaveSite` and `DeleteSite`, over a disk that maps paths to contents. A save may meet a failing
--   write or rename. Theorems are in Config.Loader.Saving and Config.Loader.Loading.
-- - Config.Store: internal/config/config.go, `Store` with `Replace`, `Lookup`, `Snapshot` and
--   `Domains`. `P` is the type of the pointers to sites, and `deref` reads one. Theorems are in
--   Config.Store.Routing and Config.Store.Domains.
-- - Proxy.Pool: internal/proxy/upstream.go, `Pool` with `NewPool`, `Next` and `Size`; the counter
--   wraps at 2 ^ 64. Theorems are in Proxy.Pool.Fairness and
--   Proxy.Pool.Parsing.
-- - Proxy.Limiter: internal/proxy/ratelimit.go, `Limiter` with `NewLimiter` and `Allow`.
--   Proxy.Limiter.Capacity has the burst of a new limiter and Proxy.Limiter.Run sequences of requests;
--   theorems are in Proxy.Limiter.Bound, Proxy.Limiter.Spacing and Proxy.Limiter.Overflow.
-- - Proxy.Request: the fields of `http.Request` in use, with `ClientIP` of
--   internal/proxy/ratelimit.go and `schemeOf` of internal/proxy/router.go.
-- - Proxy.Paths: internal/proxy/router.go, `singleJoin`, `sanitizeHostForLog` and the two regular
--   expressions of the exploit filter, as lists of their alternatives.
-- - Proxy.Writer: internal/proxy/router.go, `countingWriter`; Proxy.Writer.Observed has its theorem.
-- - Proxy.Router: internal/proxy/router.go, `Router` with `Reload`, `Stop`, `ServeHTTP`, the director
--   and `recordMetric`. It uses the store, the pool, the limiter and the registry as the source does.
--   Theorems are in Proxy.Router.Director, Proxy.Router.Outcomes, Proxy.Router.Counts,
--   Proxy.Router.Runtimes, Proxy.Router.Built and Proxy.Router.Targets. Proxy.Router.Sample,
--   Program.Sample and Ui.Sample have the data of the tests.
-- - Proxy.Router.Flight: internal/proxy/router.go, `ServeHTTP` of many requests at once, as a step
--   relation: an access of what is shared, the arrival of a request, `Replace`, `Reload`, `Prune` and
--   `Stop`.
--   Theorems are in Proxy.Router.Flight.Alone, Proxy.Router.Flight.Journeys,
--   Proxy.Router.Flight.Counted, Proxy.Router.Flight.Listed and Proxy.Router.Flight.Drain.
-- - Proxy.Answer: internal/proxy/router.go, what `buildReverseProxy` does with an answer or an error of
--   the upstream. Theorems are in Proxy.Answer.Failing and Proxy.Answer.Headers.
-- - Metrics: internal/metrics/metrics.go, `Site` with `Record` and `Snapshot`, and in
--   Metrics.Registry `Registry` with `SiteFor`, `SnapshotAll` and `Prune`. Metrics.Window says what
--   the history of the samples should count; theorems are in Metrics.Buckets, Metrics.Totals,
--   Metrics.Series and Metrics.Percentile.
-- - Auth: internal/auth/auth.go, `Manager` with `New`, `VerifyPassword`, `IssueCookie`,
--   `Authenticated` and `Require`, and `ClearCookie`. Theorems are in Auth.Session, Auth.Forgery and
--   Auth.Secret.
-- - Config.Watcher: internal/config/watcher.go, the loop of `Watcher.Run` with its timer.
--   Config.Watcher.Debounce has its runs and their theorems.
-- - Acme: internal/acme/acme.go, `New`, `SyncDomains`, `ListCerts` and `DomainsFromSites`. The theorem
--   is in Acme.Domains.
-- - Ui: internal/ui/ui.go. Ui.Types has `Server` with the pages, Ui.Format the texts of durations and
--   of bytes, Ui.Form the form of a site, Ui.Rows the dashboard's rows, Ui.Login the login, Ui.Sites
--   the handlers of the sites and Ui.Handler the routes. Theorems are in Ui.Form.RoundTrip,
--   Ui.Rows.Totals, Ui.Login.Session, Ui.Sites.Saving, Ui.Sites.Methods and Ui.Handler.Guard.
-- - Server: internal/server/server.go, the listeners and the life of `Run` as a step relation, and in
--   Server.Deadline the time that its drain takes. Theorems are in Server.Draining and Server.Ending.
-- - Program: cmd/jobcloud/main.go, the commands, the start, and `OnReload` with the reload that calls
--   it, over the router with its store and registry; in Program.Main whether the program ends or serves,
--   and in Program.Overlap the reloads that go on at once. Theorems are in Program.Main,
--   Program.Reloading, Program.Hashing, Program.Overlap, Program.Overlap.Loads and
--   Program.Overlap.Apart.
-- - Text, Decimal, Dict and Sort are what the source takes from the standard library: strings, decimal
--   numbers, maps and sorting. Prelude holds the shared lemmas on lists, tests and integers.
--
-- How the code is rendered. Names like `AllDomains` become `all_domains`. A text is the list of its
-- bytes, and letters and white space are those of ASCII. A map is a list of pairs, where the first
-- pair of a key counts; the order of the pairs is never observed, for `Domains` sorts the keys.
-- Methods take the state and return it. A mutex or an atomic makes a method one step; the clock's
-- readings are arguments. `serve_http` serves a request with nothing between, and `advance` of
-- Proxy.Router.Flight one access of it; a reload has five calls with others between in
-- Program.Overlap, of which the first, the load of the sites, is one step. Unsigned counters have
-- their wrap-around written out. The limiter computes in float64, here in exact billionths of a
-- token, so that a nanosecond adds `rps` of them; the sum of rps and burst, which the source takes
-- of ints, wraps around. Two readings of the clock are less than the 292 years of a Duration apart.
-- The router's runtimes are shared among names through pointers, which are places in a list.
--
-- Loops are recursion on their lists. Where fuel is used it is the length of the text (replacing,
-- splitting), the number itself (its digits), or the bound that the loop has in the source (253 bytes
-- of a host, 60 seconds of a chart).
--
-- In the admin interface a site is a place in a heap, since a handler changes a site that the store
-- shares, and a page is the data that its template is given. The times of the watcher are those of a
-- clock that does not run backwards; each turn of its loop, and each event of the server's life, is one
-- step, in any order that the code allows.
--
-- Parameters stand for other packages: `parse_url` for `url.Parse`, `split_remote` for
-- `net.SplitHostPort`, `join` and `base` for those of filepath, `marshal` and `unmarshal` for YAML,
-- `upstream` for the reverse proxy's transport and error handling, `manage` for certmagic's
-- `ManageAsync` and `get_certificate` for its answer to a handshake, `clean`, `clean_path`, `mkdir`
-- and `read_dir` for the functions on paths and directories, `canonical` for the spelling of a
-- header's name, `generate` for bcrypt's hash of a password, `parse_flags` for flag, `shutdown` for
-- the `Shutdown` of a server, and the record `Crypto` for HMAC-SHA256, bcrypt and base64, of which
-- it is only assumed that base64 decodes what it has encoded.
--
-- Not modelled: changes of the files in the middle of a load; a site that a handler of the interface
-- changes in place while a request holds it; the templates and static files of the admin interface
-- with their parsing; what certmagic, fsnotify and net/http do inside; the parsing of flags, signals
-- and logging; the rounding of float64, in the limiter and in the amounts of bytes above 2 ^ 53; data
-- races and memory.
pub mod Acme
pub mod Auth
pub mod Config
pub mod Decimal
pub mod Dict
pub mod Metrics
pub mod Prelude
pub mod Program
pub mod Proxy
pub mod Server
pub mod Sort
pub mod Text
pub mod Ui
