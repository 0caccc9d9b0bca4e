-- ===== src/Auth/Session.antt =====
-- A session that was issued is accepted until it expires, and no user name with a dot ever is.
use proxy_go.Text.{to_lower, to_lower-append, contains-to_lower, split_n, split_n-three}
use proxy_go.Dict.{lookup}
use proxy_go.Prelude.Int.{pos}
use mathlib.Core.List.{append_assoc}
use proxy_go.Auth.{
  Crypto, Manager, session_max_age, sign, issue_cookie, check_session, authenticated,
}
use proxy_go.Decimal.{i64_max, format_int, parse_int}
use proxy_go.Decimal.RoundTrip.{contains-format_int, parse_int-format_int}
use proxy_go.Prelude.{
  ltb, if◌then◌else◌, contains, Text, nat_eq, text_eq, beq_refl, ℕ, ◌+◌, ◌≤◌, ◌≡◌, refl, ap, ◌∙◌,
  Bool, true, false, Option, none, some, [], ◌∷◌, ◌++◌, arith,
}

-- the user's name is no admin's, or an admin's
abbrev pub is_admin : Text → Manager → Bool
is_admin username m = elim (lookup username m.admins) [ none ↦ false | some _ ↦ true ]

module _ (c : Crypto) where
  -- an authentic session of an admin is decided by its time
  check_session_time :
      (now exp : ℕ) (m : Manager) (username exp_str : Text)
      → parse_int exp_str ≡ some (pos exp)
      → is_admin username m ≡ true
      → check_session c now m (username ∷ exp_str ∷ sign c (username ++ b'.' ∷ exp_str) m ∷ [])
        ≡ (if ltb now exp then username else [])
  unfolding check_session
  check_session_time now exp m username exp_str parsed known =
      ground (arith, parsed, beq_refl (sign c (username ++ b'.' ∷ exp_str) m), known)

  check_session_bad_time :
      (now : ℕ) (m : Manager) (username exp_str sig : Text)
      → parse_int exp_str ≡ none
      → check_session c now m (username ∷ exp_str ∷ sig ∷ []) ≡ []
  unfolding check_session
  check_session_bad_time now m username exp_str sig bad = ground arith

  pub authenticated_raw :
      (value raw : Text) (now : ℕ) (m : Manager)
      → c.decode value ≡ some raw
      → authenticated c (some value) now m ≡ check_session c now m (split_n raw b'.' 3)
  unfolding authenticated
  authenticated_raw value raw now m e =
      ap
        (λ (d : Option Text). elim d [
          | none ↦ []
          | some r ↦ check_session c now m (split_n r b'.' 3)
        ])
        e

  pub authenticated_undecoded :
      (value : Text) (now : ℕ) (m : Manager)
      → c.decode value ≡ none
      → authenticated c (some value) now m ≡ []
  unfolding authenticated
  authenticated_undecoded value now m e =
      ap
        (λ (d : Option Text). elim d [
          | none ↦ []
          | some r ↦ check_session c now m (split_n r b'.' 3)
        ])
        e

  -- the end of the session, as the cookie has it
  abbrev exp_of : ℕ → Text
  exp_of now = format_int (now + session_max_age)

  -- what is decoded and split again
  decode-issue_cookie :
      (m : Manager) (username : Text) (tls : Bool) (now : ℕ)
      → c.decode (issue_cookie c username tls now m).value
        ≡ some (
            to_lower username
            ++ b'.' ∷ (exp_of now ++ b'.' ∷ sign c (to_lower username ++ b'.' ∷ exp_of now) m))
  unfolding issue_cookie
  decode-issue_cookie m username tls now =
      c.decode-encode _ ∙ ap some (append_assoc (to_lower username) (b'.' ∷ exp_of now) _)

  -- The cookie that is issued to an admin whose name has no dot authenticates that admin, by the
  -- lower-cased name, until the 24 hours are over, and nobody from then on, if their end fits an
  -- int64.
  pub authenticated-issue_cookie :
      (m : Manager) (username : Text) (tls : Bool) (now later : ℕ)
      → contains username b'.' ≡ false
      → is_admin (to_lower username) m ≡ true
      → now + session_max_age ≤ i64_max
      → authenticated c (some (issue_cookie c username tls now m).value) later m
        ≡ (if ltb later (now + session_max_age) then to_lower username else [])
  authenticated-issue_cookie m username tls now later no_dot known fits =
      let user = to_lower username in
      let whole = contains-to_lower username b'.' (omega arith) ∙ no_dot in
      authenticated_raw _ _ later m (decode-issue_cookie m username tls now)
      ∙ ap (check_session c later m) (
          split_n-three user (exp_of now) _ b'.' whole
            (contains-format_int (now + session_max_age)))
      ∙ check_session_time later (now + session_max_age) m user (exp_of now)
          (parse_int-format_int (now + session_max_age) fits) known

  -- The cookie of a user whose name is two parts with a dot between, the second no number, is never
  -- accepted: the second part is read as the time.
  pub authenticated-dotted :
      (m : Manager) (first second : Text) (tls : Bool) (now later : ℕ)
      → contains first b'.' ≡ false
      → contains second b'.' ≡ false
      → parse_int (to_lower second) ≡ none
      → authenticated c (some (issue_cookie c (first ++ b'.' ∷ second) tls now m).value) later m
        ≡ []
  authenticated-dotted m first second tls now later p q bad =
      let low : b'.' ≤ 64 = omega arith in
      let a = to_lower first in
      let b = to_lower second in
      let user = first ++ b'.' ∷ second in
      let sig = sign c (to_lower user ++ b'.' ∷ exp_of now) m in
      let raw = c.decode (issue_cookie c user tls now m).value in
      let dot : to_lower (b'.' ∷ second) ≡ b'.' ∷ b = unfold to_lower in refl in
      let lower : to_lower user ≡ a ++ b'.' ∷ b =
        to_lower-append first (b'.' ∷ second) ∙ ap (λ s. a ++ s) dot in
      let shape : raw ≡ some (a ++ b'.' ∷ (b ++ b'.' ∷ (exp_of now ++ b'.' ∷ sig))) =
        decode-issue_cookie m user tls now
        ∙ ap (λ u. some (u ++ b'.' ∷ (exp_of now ++ b'.' ∷ sig))) lower
        ∙ ap some (append_assoc a (b'.' ∷ b) _) in
      authenticated_raw _ _ later m shape
      ∙ ap (check_session c later m) (
          split_n-three a b (exp_of now ++ b'.' ∷ sig) b'.' (contains-to_lower first b'.' low ∙ p)
            (contains-to_lower second b'.' low ∙ q))
      ∙ check_session_bad_time later m a b (exp_of now ++ b'.' ∷ sig) bad
