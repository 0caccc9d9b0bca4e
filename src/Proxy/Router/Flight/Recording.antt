-- ===== src/Proxy/Router/Flight/Recording.antt =====
-- What one access does to the counters of all domains together.
use proxy_go.Prelude.{
  if◌then◌else◌, Bool-cases, Option-cases, length, get_elem?, get_or, set, length-append,
  length-set, Text, nat_eq, text_eq, ℕ, zero, suc, ◌+◌, ◌%◌, ◌≤◌, ◌<◌, ◌≡◌, refl, sym, ap, subst,
  ◌∙◌, inl, inr, Bool, true, false, not, ◌&&◌, ◌||◌, Option, some, List, [], ◌∷◌, ◌++◌, arith,
}
use proxy_go.Dict.{lookup, lookup-insert}
use proxy_go.Config.Site.{Site}
use proxy_go.Config.Store.{lookup_host}
use proxy_go.Metrics.{Sample, u64, new_site, one_if, record_sample}
use proxy_go.Proxy.Limiter.{allow_opt}
use proxy_go.Proxy.Paths.{is_exploit_path, is_scanner}
use proxy_go.Proxy.Request.{Request, client_ip}
use proxy_go.Proxy.Router.{SiteRuntime, Outcome, unavailable, too_many, proxied}
use proxy_go.Proxy.Router.Flight.{
  Shared, Stage, arrived, admitted, routed, bound, granted, sent_out, answered, unlisted, counting,
  done, Tick, is_done, track, store_sample, screen, take_token, pick_upstream, advance,
}
use proxy_go.Proxy.Router.Flight.Tracking.{track-cases}
use proxy_go.Proxy.Router.Flight.Served.{advance-granted, advance-bound}
use proxy_go.Metrics.{Site as Stats}

-- what is recorded: a refusal by the limiter and what was sent to an upstream
abbrev pub is_recorded : Outcome → Bool
is_recorded (proxied sent resp) = true
is_recorded too_many = true
is_recorded _ = false

abbrev pub tally : Stage → ℕ
tally (done out) = one_if (is_recorded out)
tally _ = 0

-- the requests of all the counters, also of those that a prune has dropped
abbrev pub total : List Stats → ℕ
total [] = 0
total (x ∷ xs) = x.total_requests + total xs

total-append : (xs : List Stats) (x : Stats) → total (xs ++ x ∷ []) ≡ total xs + x.total_requests
total-append [] x = omega arith
total-append (y ∷ xs) x = omega (arith, total-append xs x)

-- one more request at a place, with the wrap-around of its counter
total-set :
    (xs : List Stats) (q : ℕ) (x d : Stats)
    → q < length xs
    → x.total_requests ≡ ((get_or xs q d).total_requests + 1) % u64
    → total (set xs q x) % u64 ≡ (total xs + 1) % u64
total-set [] q x d h e = elim h [ ]
total-set (y ∷ xs) zero x d h e = omega (arith, e)
total-set (y ∷ xs) (suc q) x d h e =
    let rest : total (set xs q x) % u64 ≡ (total xs + 1) % u64 =
      total-set xs q x d (omega arith) e in
    omega (arith, rest)

pub tally-busy : (st : Stage) → is_done st ≡ false → tally st ≡ 0
tally-busy (done out) busy = absurd (ground arith)
tally-busy st busy = refl

-- every domain has a place for its counters
abbrev pub IsPlaced : Shared → Type 0
IsPlaced s = (d : Text) (q : ℕ) → lookup d s.sites ≡ some q → q < length s.stats

-- what is to be recorded has a place to be recorded in
abbrev pub IsCounted : ℕ → Stage → Type 0
IsCounted n (answered d out sm) = is_recorded out ≡ true
IsCounted n (unlisted d out sm) = is_recorded out ≡ true
IsCounted n (counting q out sm) = (is_recorded out ≡ true) × (q < n)
IsCounted n _ = Unit

pub IsCounted-more : (n m : ℕ) (st : Stage) → n ≤ m → IsCounted n st → IsCounted m st
IsCounted-more n m (counting q out sm) more (r, h) = (r, omega arith)
IsCounted-more n m (answered d out sm) more h = h
IsCounted-more n m (unlisted d out sm) more h = h
IsCounted-more n m arrived more h = tt
IsCounted-more n m admitted more h = tt
IsCounted-more n m (routed site) more h = tt
IsCounted-more n m (bound d p) more h = tt
IsCounted-more n m (granted d p) more h = tt
IsCounted-more n m (sent_out d p sent) more h = tt
IsCounted-more n m (done out) more h = tt

-- what an access leaves
pub record IsCountedStep (s : Shared) (after : Stage × Shared) : Type 0 where
  pub placed : IsPlaced after.1
  pub counted : IsCounted (length after.1.stats) after.0
  pub more : length s.stats ≤ length after.1.stats
  pub tallied : total after.1.stats % u64 ≡ (total s.stats + tally after.0) % u64

-- an access that leaves the counters alone, and records nothing
IsCountedStep-same :
    (s s' : Shared) (st : Stage)
    → s'.sites ≡ s.sites
    → s'.stats ≡ s.stats
    → IsPlaced s
    → IsCounted (length s.stats) st
    → tally st ≡ 0
    → IsCountedStep s (st, s')
IsCountedStep-same s s' st sites stats o h nothing = record {
  placed = λ d q e. ground (arith, o d q, sites, stats);
  counted = rw stats h;
  more = omega (arith, ap length stats);
  tallied = omega (arith, ap total stats, nothing);
}

IsCountedStep-arrived :
    (s : Shared) (b : Bool)
    → IsPlaced s
    → IsCountedStep s (if b then done unavailable else admitted, s)
IsCountedStep-arrived s true o = IsCountedStep-same s s (done unavailable) refl refl o tt refl
IsCountedStep-arrived s false o = IsCountedStep-same s s admitted refl refl o tt refl

IsCountedStep-screen :
    (req : Request) (s : Shared) (site : Site) → IsPlaced s → IsCountedStep s (screen req site, s)
unfolding screen
IsCountedStep-screen req s site o = elim (Bool-cases (site.http_to_https && not req.tls)) [
  | inl sent ↦ rw sent (IsCountedStep-same s s _ refl refl o tt refl)
  | inr secure ↦
      elim (Bool-cases
        (site.block_common_exploits && (is_exploit_path req.path || is_scanner req.user_agent))) [
          | inl blocked ↦ rw (secure, blocked) (IsCountedStep-same s s _ refl refl o tt refl)
          | inr harmless ↦ rw (secure, harmless) (IsCountedStep-same s s _ refl refl o tt refl)
        ]
]

module _ (split_remote : Text → Option Text) (t : Tick) (req : Request) where
  IsCountedStep-take_token :
      (d : Text) (p : ℕ) (rt : SiteRuntime) (s : Shared)
      → IsPlaced s
      → IsCountedStep s (take_token split_remote t req d p rt s)
  unfolding take_token
  IsCountedStep-take_token d p rt s o =
      elim (Bool-cases
        (allow_opt (client_ip split_remote req s.trust_headers) t.clock.now rt.limiter).0) [
          | inl ok ↦ rw ok (IsCountedStep-same s _ _ refl refl o tt refl)
          | inr refused ↦ rw refused (IsCountedStep-same s _ _ refl refl o refl refl)
        ]

  IsCountedStep-unlisted :
      (d : Text) (out : Outcome) (sm : Sample) (s : Shared)
      → IsPlaced s
      → is_recorded out ≡ true
      → IsCountedStep s (counting (track d s).0 out sm, (track d s).1)
  unfolding new_site
  IsCountedStep-unlisted d out sm s o h = elim (track-cases d s) [
    | inl (q, held, e) ↦ rw e (IsCountedStep-same s s _ refl refl o (h, o d q held) refl)
    | inr (free, e) ↦
        let longer = length-append s.stats (new_site ∷ []) in
        rw e record {
          placed = λ d' q e'.
              ground (arith, lookup-insert d d' (length s.stats) s.sites, o d' q, longer);
          counted = (h, omega (arith, longer));
          more = omega (arith, longer);
          tallied = rw (total-append s.stats new_site) (omega arith);
        }
  ]

  IsCountedStep-counting :
      (q : ℕ) (out : Outcome) (sm : Sample) (s : Shared)
      → IsPlaced s
      → (is_recorded out ≡ true) × (q < length s.stats)
      → IsCountedStep s (done out, store_sample q sm t.clock.now_sec s)
  unfolding store_sample
  IsCountedStep-counting q out sm s o (h, inside) =
      let x = record_sample sm t.clock.now_sec (get_or s.stats q new_site) in
      let same = length-set s.stats q x in
      record {
        placed = λ d p e. omega (arith, o d p e, same);
        counted = tt;
        more = omega (arith, same);
        tallied =
            total-set s.stats q x new_site inside (unfold record_sample in refl)
            ∙ ap (λ b. (total s.stats + one_if b) % u64) (sym h);
      }

  pub counted_step :
      (st : Stage) (s : Shared)
      → is_done st ≡ false
      → IsPlaced s
      → IsCounted (length s.stats) st
      → IsCountedStep s (advance split_remote t req st s)
  unfolding advance
  counted_step arrived s busy o h = IsCountedStep-arrived s s.stopping o
  counted_step admitted s busy o h = elim (Option-cases (lookup_host s.store req.host)) [
    | inl missing ↦ rw (missing, advance) (IsCountedStep-same s s _ refl refl o tt refl)
    | inr (site, found) ↦ rw (found, advance) (IsCountedStep-screen req s site o)
  ]
  counted_step (routed site) s busy o h = elim (Option-cases (lookup site.domain s.runtimes)) [
    | inl missing ↦ rw (missing, advance) (IsCountedStep-same s s _ refl refl o tt refl)
    | inr (p, found) ↦ rw (found, advance) (IsCountedStep-same s s _ refl refl o tt refl)
  ]
  counted_step (bound d p) s busy o h = elim (Option-cases (get_elem? s.heap p)) [
    | inl missing ↦ rw (missing, advance) (IsCountedStep-same s s _ refl refl o tt refl)
    | inr (rt, here) ↦
        subst (IsCountedStep s) (sym (advance-bound split_remote t req d p rt s here))
          (IsCountedStep-take_token d p rt s o)
  ]
  counted_step (granted d p) s busy o h = elim (Option-cases (get_elem? s.heap p)) [
    | inl missing ↦ rw (missing, advance) (IsCountedStep-same s s _ refl refl o tt refl)
    | inr (rt, here) ↦
        subst (IsCountedStep s) (sym (advance-granted split_remote t req d p rt s here))
          (unfold pick_upstream in IsCountedStep-same s _ _ refl refl o tt refl)
  ]
  counted_step (sent_out d p sent) s busy o h = IsCountedStep-same s s _ refl refl o refl refl
  counted_step (answered d out sm) s busy o h = elim (Option-cases (lookup d s.sites)) [
    | inl missing ↦ rw (missing, advance) (IsCountedStep-same s s _ refl refl o h refl)
    | inr (q, found) ↦
        rw (found, advance) (IsCountedStep-same s s _ refl refl o (h, o d q found) refl)
  ]
  counted_step (unlisted d out sm) s busy o h = IsCountedStep-unlisted d out sm s o h
  counted_step (counting q out sm) s busy o h = IsCountedStep-counting q out sm s o h
  counted_step (done out) s busy o h = absurd (ground arith)
