-- ===== src/Text/Split.antt =====
-- `SplitN` for a separator of one byte.
use proxy_go.Prelude.{
  Option-cases, contains, Text, nat_eq, text_eq, ℕ, zero, suc, ◌≡◌, inl, inr, false, none, some,
  List, [], ◌∷◌, ◌++◌, arith,
}
use proxy_go.Text.Index.{cut, cut-append, cut_sound}

unfoldable pub split_n : Text → ℕ → ℕ → List Text
split_n s c zero = []
split_n s c (suc zero) = s ∷ []
split_n s c (suc (suc n)) = elim (cut s c) [ none ↦ s ∷ [] | some (a, b) ↦ a ∷ split_n b c (suc n) ]

pub split_n-three :
    (a b r : Text) (c : ℕ)
    → contains a c ≡ false
    → contains b c ≡ false
    → split_n (a ++ c ∷ (b ++ c ∷ r)) c 3 ≡ a ∷ b ∷ r ∷ []
unfolding split_n
split_n-three a b r c p q = ground (arith, cut-append a (b ++ c ∷ r) c p, cut-append b r c q)

-- Three parts put the text together again.
pub split_n-three_sound :
    (s a b r : Text) (c : ℕ) → split_n s c 3 ≡ a ∷ b ∷ r ∷ [] → s ≡ a ++ c ∷ (b ++ c ∷ r)
unfolding split_n
split_n-three_sound s a b r c h = elim (Option-cases (cut s c)) [
  | inl missing ↦ absurd (ground arith)
  | inr ((x, rest), first) ↦ elim (Option-cases (cut rest c)) [
    | inl missing ↦ absurd (ground arith)
    | inr ((y, z), second) ↦
        let (whole, _) = cut_sound s x rest c first in
        let (tail, _) = cut_sound rest y z c second in ground arith
  ]
]
