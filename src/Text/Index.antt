-- ===== src/Text/Index.antt =====
-- `LastIndex`, `IndexByte` and `Cut`, for a separator of one byte.
use proxy_go.Prelude.{
  if◌then◌else◌, length, take, drop, contains, ◌==◌, Text, nat_eq, text_eq, ℕ, zero, suc, ◌<◌, ◌≡◌,
  refl, true, false, Option, none, some, [], ◌∷◌, ◌++◌, arith,
}

unfoldable pub last_index : Text → ℕ → Option ℕ
last_index [] c = none
last_index (x ∷ s) c = elim (last_index s c) [
  | none ↦ if x == c then some 0 else none
  | some i ↦ some (suc i)
]

unfoldable pub index_byte : Text → ℕ → Option ℕ
index_byte [] c = none
index_byte (x ∷ s) c = elim (x == c) [
  | true ↦ some 0
  | false ↦ elim (index_byte s c) [ none ↦ none | some i ↦ some (suc i) ]
]

-- the text before and after the first separator
unfoldable pub cut : Text → ℕ → Option (Text × Text)
cut [] c = none
cut (x ∷ s) c = elim (x == c) [
  | true ↦ some ([], s)
  | false ↦ elim (cut s c) [ none ↦ none | some (a, b) ↦ some (x ∷ a, b) ]
]

pub last_index-eq-none : (s : Text) (c : ℕ) → contains s c ≡ false → last_index s c ≡ none
unfolding last_index
last_index-eq-none [] c h = refl
last_index-eq-none (x ∷ s) c h = ground (arith, last_index-eq-none s c)

pub last_index-append :
    (s t : Text) (c : ℕ) → contains t c ≡ false → last_index (s ++ c ∷ t) c ≡ some (length s)
unfolding last_index
last_index-append [] t c h = ground (arith, last_index-eq-none t c)
last_index-append (x ∷ s) t c h = ground (arith, last_index-append s t c)

-- Past the last separator there is none, and the index lies in the text.
pub last_index-lt-length : (s : Text) (c i : ℕ) → last_index s c ≡ some i → i < length s
unfolding last_index
last_index-lt-length [] c i h = ground arith
last_index-lt-length (x ∷ s) c zero h = omega arith
last_index-lt-length (x ∷ s) c (suc i) h = ground (arith, last_index-lt-length s c i)

pub index_byte-append :
    (s t : Text) (c : ℕ) → contains s c ≡ false → index_byte (s ++ c ∷ t) c ≡ some (length s)
unfolding index_byte
index_byte-append [] t c h = ground arith
index_byte-append (x ∷ s) t c h = ground (arith, index_byte-append s t c)

pub cut-append : (s t : Text) (c : ℕ) → contains s c ≡ false → cut (s ++ c ∷ t) c ≡ some (s, t)
unfolding cut
cut-append [] t c h = ground arith
cut-append (x ∷ s) t c h = ground (arith, cut-append s t c)

pub cut-eq-none : (s : Text) (c : ℕ) → contains s c ≡ false → cut s c ≡ none
unfolding cut
cut-eq-none [] c h = refl
cut-eq-none (x ∷ s) c h = ground (arith, cut-eq-none s c)

-- What `cut` returns puts the text together again, and its first part has no separator.
pub cut_sound :
    (s a b : Text) (c : ℕ) → cut s c ≡ some (a, b) → (s ≡ a ++ c ∷ b) × (contains a c ≡ false)
unfolding cut
cut_sound [] a b c h = ground arith
cut_sound (x ∷ s) [] b c h = ground arith
cut_sound (x ∷ s) (y ∷ a) b c h = ground (arith, cut_sound s a b c)

pub contains_of_last_index-none : (s : Text) (c : ℕ) → last_index s c ≡ none → contains s c ≡ false
unfolding last_index
contains_of_last_index-none [] c h = refl
contains_of_last_index-none (x ∷ s) c h = ground (arith, contains_of_last_index-none s c)

-- The text is cut at the index, and no separator follows.
pub last_index_sound :
    (s : Text) (c i : ℕ)
    → last_index s c ≡ some i
    → (s ≡ take i s ++ c ∷ drop (suc i) s) × (contains (drop (suc i) s) c ≡ false)
unfolding last_index
last_index_sound [] c i h = ground arith
last_index_sound (x ∷ s) c zero h = ground (arith, contains_of_last_index-none s c)
last_index_sound (x ∷ s) c (suc i) h = ground (arith, last_index_sound s c i)
