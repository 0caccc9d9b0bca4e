-- ===== src/Text/Replace.antt =====
-- `ReplaceAll`: the text is scanned from the left, and `skip` bytes of a match are passed over.
use proxy_go.Prelude.{length, Text, nat_eq, text_eq, ℕ, zero, suc, ◌-◌, true, false, [], ◌∷◌, ◌++◌}
use proxy_go.Text.Basic.{has_prefix}

unfoldable pub replace_from : Text → Text → ℕ → Text → Text
unfolding has_prefix
replace_from old new skip [] = []
replace_from old new (suc skip) (c ∷ s) = replace_from old new skip s
replace_from old new zero (c ∷ s) = elim (has_prefix (c ∷ s) old) [
  | true ↦ new ++ replace_from old new (length old - 1) s
  | false ↦ c ∷ replace_from old new 0 s
]

unfoldable pub replace_all : Text → Text → Text → Text
unfolding replace_from
replace_all s old new = replace_from old new 0 s
