-- ===== src/Auth/Forgery.antt =====
-- What an accepted cookie proves.
use proxy_go.Text.{split_n-three_sound}
use proxy_go.Prelude.Int.{ℤ, pos, ltb_ℤ}
use proxy_go.Auth.{Crypto, Manager, sign, check_session, authenticated}
use proxy_go.Decimal.{parse_int}
use proxy_go.Auth.Session.{is_admin, authenticated_raw, authenticated_undecoded}
use proxy_go.Prelude.{
  Option-cases, ◌==◌, Text, nat_eq, text_eq, eq_of_beq, ℕ, ◌≡◌, sym, ap, ◌∙◌, ◌≢◌, inl, inr, true,
  some, List, [], ◌∷◌, ◌++◌, arith,
}

module _ (c : Crypto) where
  -- A session of `user` whose signature is right under the secret and which has not run out.
  pub record IsGenuine (value : Text) (now : ℕ) (m : Manager) (user : Text) : Type 0 where
    pub exp_str : Text
    pub raw :
        c.decode value ≡ some (user ++ b'.' ∷ (exp_str ++ b'.' ∷ sign c (user ++ b'.' ∷ exp_str) m))
    pub exp : ℤ
    pub parsed : parse_int exp_str ≡ some exp
    pub young : ltb_ℤ (pos now) exp ≡ true
    pub known : is_admin user m ≡ true

  check_session_sound :
      (now : ℕ) (m : Manager) (parts : List Text) (user : Text)
      → check_session c now m parts ≡ user
      → user ≢ []
      → (exp_str : Text) × (exp : ℤ) × (parts
          ≡ user ∷ exp_str ∷ sign c (user ++ b'.' ∷ exp_str) m ∷ [])
        × (parse_int exp_str ≡ some exp)
        × (ltb_ℤ (pos now) exp ≡ true)
        × (is_admin user m ≡ true)
  unfolding check_session
  check_session_sound now m [] user h ne = absurd (ne (sym h))
  check_session_sound now m (a ∷ []) user h ne = absurd (ne (sym h))
  check_session_sound now m (a ∷ b ∷ []) user h ne = absurd (ne (sym h))
  check_session_sound now m (a ∷ b ∷ s ∷ d ∷ r) user h ne = absurd (ne (sym h))
  check_session_sound now m (a ∷ b ∷ s ∷ []) user h ne = elim (Option-cases (parse_int b)) [
    | inl bad ↦ absurd (ground arith)
    | inr (exp, parsed) ↦
        let young : ltb_ℤ (pos now) exp ≡ true = ground arith in
        let signed : (s == sign c (a ++ b'.' ∷ b) m) ≡ true = ground arith in
        let known : is_admin a m ≡ true = ground arith in
        let same : a ≡ user = ground arith in
        let sig = eq_of_beq s (sign c (a ++ b'.' ∷ b) m) signed in
        (b, exp, ground (arith, sig), parsed, young, rw same at known)
  ]

  -- Whatever cookie is sent: if it is accepted for a user, the decoded value is that user's name and
  -- a time still to come, signed under the secret, and the user is an admin.
  pub authenticated-IsGenuine :
      (value user : Text) (now : ℕ) (m : Manager)
      → authenticated c (some value) now m ≡ user
      → user ≢ []
      → IsGenuine value now m user
  authenticated-IsGenuine value user now m h ne = elim (Option-cases (c.decode value)) [
    | inl bad ↦ absurd (ne (sym h ∙ authenticated_undecoded c value now m bad))
    | inr (raw, decoded) ↦
        let checked = sym (authenticated_raw c value raw now m decoded) ∙ h in
        let (exp_str, exp, parts, parsed, young, known) =
          check_session_sound now m _ user checked ne in
        record {
          exp_str = exp_str;
          raw = decoded ∙ ap some (split_n-three_sound raw user exp_str _ b'.' parts);
          exp = exp;
          parsed = parsed;
          young = young;
          known = known;
        }
  ]
