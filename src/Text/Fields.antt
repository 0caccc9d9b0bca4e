-- ===== src/Text/Fields.antt =====
-- `Fields`, `Split` for a separator of one byte, and `Join`.
use proxy_go.Prelude.{
  if◌then◌else◌, All, contains, ◌==◌, Text, nat_eq, text_eq, beq_refl, ℕ, ◌≡◌, refl, ap, ◌∙◌, ◌≢◌,
  Bool, true, false, not, List, [], ◌∷◌, ◌++◌, arith,
}
use proxy_go.Text.Basic.{codes, is_space}

abbrev pub starts_word : Text → Bool
starts_word [] = false
starts_word (c ∷ s) = not (is_space c)

-- a byte goes in front of the first word, or is a word of its own
abbrev attach : ℕ → Bool → List Text → List Text
attach c true (w ∷ ws) = (c ∷ w) ∷ ws
attach c true [] = (c ∷ []) ∷ []
attach c false ws = (c ∷ []) ∷ ws

unfoldable pub fields : Text → List Text
unfolding is_space
fields [] = []
fields (c ∷ s) = let rest = fields s in if is_space c then rest else attach c (starts_word s) rest

abbrev attach_first : ℕ → List Text → List Text
attach_first c [] = (c ∷ []) ∷ []
attach_first c (w ∷ ws) = (c ∷ w) ∷ ws

unfoldable pub split_all : Text → ℕ → List Text
split_all [] sep = [] ∷ []
split_all (c ∷ s) sep =
    let rest = split_all s sep in if c == sep then [] ∷ rest else attach_first c rest

unfoldable pub join_texts : List Text → Text → Text
join_texts [] sep = []
join_texts (w ∷ []) sep = w
join_texts (w ∷ v ∷ ws) sep = w ++ (sep ++ join_texts (v ∷ ws) sep)

-- a word has a byte and no white space
abbrev pub IsWord : Text → Type 0
IsWord w = (w ≢ []) × All (λ c. is_space c ≡ false) w

fields-word : (w s : Text) → IsWord w → fields (w ++ b' ' ∷ s) ≡ w ∷ fields s
unfolding fields is_space
fields-word [] s (ne, h) = absurd (ne refl)
fields-word (c ∷ []) s (ne, (h, _)) = ground (arith, h)
fields-word (c ∷ d ∷ w) s (ne, (h, (k, hs))) =
    ground (arith, h, k, fields-word (d ∷ w) s ((λ e. ground (arith, e)), (k, hs)))

fields-last : (w : Text) → IsWord w → fields w ≡ w ∷ []
unfolding fields is_space
fields-last [] (ne, h) = absurd (ne refl)
fields-last (c ∷ []) (ne, (h, _)) = ground (arith, h)
fields-last (c ∷ d ∷ w) (ne, (h, (k, hs))) =
    ground (arith, h, k, fields-last (d ∷ w) ((λ e. ground (arith, e)), (k, hs)))

-- Words with a space between are split into the same words.
pub fields-join_texts : (ws : List Text) → All IsWord ws → fields (join_texts ws (codes " ")) ≡ ws
unfolding join_texts
fields-join_texts [] h = unfold fields in refl
fields-join_texts (w ∷ []) (h, _) = fields-last w h
fields-join_texts (w ∷ v ∷ ws) (h, hs) =
    fields-word w (join_texts (v ∷ ws) (codes " ")) h
    ∙ ap (λ r. w ∷ r) (fields-join_texts (v ∷ ws) hs)

pub split_all-append :
    (w s : Text) (sep : ℕ)
    → contains w sep ≡ false
    → split_all (w ++ sep ∷ s) sep ≡ w ∷ split_all s sep
unfolding split_all
split_all-append [] s sep h = ground (arith, beq_refl sep)
split_all-append (c ∷ w) s sep h = ground (arith, split_all-append w s sep)

pub split_all-last : (w : Text) (sep : ℕ) → contains w sep ≡ false → split_all w sep ≡ w ∷ []
unfolding split_all
split_all-last [] sep h = refl
split_all-last (c ∷ w) sep h = ground (arith, split_all-last w sep)
