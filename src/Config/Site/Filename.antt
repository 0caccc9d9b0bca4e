-- ===== src/Config/Site/Filename.antt =====
-- The name made from a domain cannot leave the sites directory.
use proxy_go.Prelude.{
  if◌then◌else◌, contains, ◌==◌, Text, nat_eq, text_eq, ℕ, ◌≡◌, refl, ◌≢◌, false, [], ◌∷◌, map,
  arith,
}
use proxy_go.Text.{codes, to_lower, contains_text, replace_all}
use proxy_go.Config.Site.{sanitize_filename}

-- every occurrence of one byte becomes another
abbrev swap_byte : ℕ → ℕ → ℕ → ℕ
swap_byte old new x = if x == old then new else x

replace_byte :
    (old new : ℕ) (s : Text) → replace_all s (old ∷ []) (new ∷ []) ≡ map (swap_byte old new) s
unfolding replace_all
replace_byte old new [] = refl
replace_byte old new (x ∷ s) = ground (arith, replace_byte old new s)

contains-map-swap_byte_old :
    (old new : ℕ) (s : Text) → old ≢ new → contains (map (swap_byte old new) s) old ≡ false
contains-map-swap_byte_old old new [] h = refl
contains-map-swap_byte_old old new (x ∷ s) h = ground (arith, contains-map-swap_byte_old old new s)

contains-map-swap_byte :
    (old new c : ℕ) (s : Text)
    → new ≢ c
    → contains s c ≡ false
    → contains (map (swap_byte old new) s) c ≡ false
contains-map-swap_byte old new c [] n h = refl
contains-map-swap_byte old new c (x ∷ s) n h = ground (arith, contains-map-swap_byte old new c s)

-- The last pass: ".." becomes "_".
abbrev no_dots : Text → Text
no_dots s = replace_all s (codes "..") (codes "_")

no_dots-contains :
    (c : ℕ) (s : Text) → b'_' ≢ c → contains s c ≡ false → contains (no_dots s) c ≡ false
unfolding replace_all
no_dots-contains c [] n h = refl
no_dots-contains c (x ∷ []) n h = ground arith
no_dots-contains c (x ∷ y ∷ s) n h =
    ground (arith, no_dots-contains c s, no_dots-contains c (y ∷ s))

no_dots-no_dots : (s : Text) → contains_text (no_dots s) (codes "..") ≡ false
unfolding replace_all contains_text
no_dots-no_dots [] = refl
no_dots-no_dots (x ∷ []) = ground arith
no_dots-no_dots (x ∷ y ∷ s) = ground (arith, no_dots-no_dots s, no_dots-no_dots (y ∷ s))

-- no separator of either kind, and no ".."
pub record IsFlat (name : Text) : Type 0 where
  pub no_slash : contains name b'/' ≡ false
  pub no_backslash : contains name 92 ≡ false
  pub no_parent : contains_text name (codes "..") ≡ false

-- Whatever the domain, the file name made from it has no "/", no "\" and no "..".
pub sanitize_filename-IsFlat : (domain : Text) → IsFlat (sanitize_filename domain)
unfolding sanitize_filename
sanitize_filename-IsFlat domain =
    let lower = to_lower domain in
    let first = map (swap_byte b'/' b'_') lower in
    let second = map (swap_byte 92 b'_') first in
    rw (replace_byte b'/' b'_' lower, replace_byte 92 b'_' first)
      (record {
        no_slash = no_dots-contains b'/' second (omega arith) (
            contains-map-swap_byte 92 b'_' b'/' first (omega arith)
              (contains-map-swap_byte_old b'/' b'_' lower (omega arith)));
        no_backslash =
            no_dots-contains 92 second (omega arith)
              (contains-map-swap_byte_old 92 b'_' first (omega arith));
        no_parent = no_dots-no_dots second;
      })
