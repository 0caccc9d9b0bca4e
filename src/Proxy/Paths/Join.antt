-- ===== src/Proxy/Paths/Join.antt =====
-- The seam of a joined path.
use mathlib.Core.List.{append_assoc}
use proxy_go.Text.{codes}
use proxy_go.Prelude.{
  if◌then◌else◌, is_empty_iff, ◌==◌, Text, nat_eq, text_eq, ◌≡◌, refl, sym, ap, ◌∙◌, ◌≢◌, [], ◌∷◌,
  ◌++◌, arith,
}
use proxy_go.Proxy.Paths.{last_byte, single_join}

-- without a "/" at its end
abbrev pub chop_end : Text → Text
chop_end [] = []
chop_end (c ∷ []) = if c == b'/' then [] else c ∷ []
chop_end (c ∷ d ∷ s) = c ∷ chop_end (d ∷ s)

-- without a "/" at its start
abbrev pub chop_start : Text → Text
chop_start [] = []
chop_start (c ∷ s) = if c == b'/' then s else c ∷ s

chop_end-last :
    (a : Text)
    → a ≢ []
    → (last_byte a ≡ b'/' → chop_end a ++ codes "/" ≡ a) × (last_byte a ≢ b'/' → chop_end a ≡ a)
chop_end-last [] h = absurd (h refl)
chop_end-last (c ∷ []) h = ground arith
chop_end-last (c ∷ d ∷ s) h =
    let (slash, other) = chop_end-last (d ∷ s) (λ e. cc) in
    ((λ e. ap (λ t. c ∷ t) (slash e)), (λ n. ap (λ t. c ∷ t) (other n)))

seam : (a t : Text) → a ≢ [] → last_byte a ≡ b'/' → a ++ t ≡ chop_end a ++ b'/' ∷ t
seam a t h e =
    ap (λ s. s ++ t) (sym ((chop_end-last a h).0 e)) ∙ append_assoc (chop_end a) (codes "/") t

-- Two paths that are neither empty nor "/" are joined by exactly one "/" at the seam, whichever of
-- them brings one.
pub single_join_lem :
    (a b : Text)
    → a ≢ []
    → a ≢ codes "/"
    → b ≢ []
    → b ≢ codes "/"
    → single_join a b ≡ chop_end a ++ b'/' ∷ chop_start b
unfolding single_join
single_join_lem a [] ne ns bne bns = absurd (bne refl)
single_join_lem a (c ∷ b) ne ns bne bns = ground (
  arith,
  text_eq.beq_iff a (codes "/"),
  text_eq.beq_iff (c ∷ b) (codes "/"),
  is_empty_iff a,
  chop_end-last a ne,
  seam a b ne,
  seam a (c ∷ b) ne,
)
