-- ===== src/Proxy/Paths/Exploit.antt =====
-- The exploit filter sees through the case of the path.
use proxy_go.Text.{to_lower, to_lower-append, has_prefix}
use proxy_go.Prelude.{contains, Text, nat_eq, text_eq, ◌≡◌, refl, true, List, [], ◌∷◌, ◌++◌, arith}
use proxy_go.Proxy.Paths.{exploit_paths, has_any_prefix, is_exploit_path}

has_prefix-append : (p s : Text) → has_prefix (p ++ s) p ≡ true
unfolding has_prefix
has_prefix-append [] s = refl
has_prefix-append (c ∷ p) s = ground (arith, has_prefix-append p s)

has_any_prefix-append :
    (p s : Text) (ps : List Text) → contains ps p ≡ true → has_any_prefix (p ++ s) ps ≡ true
unfolding has_any_prefix
has_any_prefix-append p s [] h = cc
has_any_prefix-append p s (q ∷ ps) h =
    ground (arith, text_eq.beq_iff q p, has_prefix-append p s, has_any_prefix-append p s ps)

-- A path that begins with one of the blocked paths in any case is caught, whatever follows.
pub is_exploit_path-append :
    (p written rest : Text)
    → contains exploit_paths p ≡ true
    → to_lower written ≡ p
    → is_exploit_path (written ++ rest) ≡ true
unfolding is_exploit_path
is_exploit_path-append p written rest h e =
    rw (to_lower-append, e) (has_any_prefix-append p (to_lower rest) exploit_paths h)
