-- ===== src/Proxy/Writer/Tests.antt =====
-- An answer in two parts, and one with early hints before it.
use proxy_go.Prelude.{nat_eq, text_eq, ◌≡◌, refl, List, [], ◌∷◌, arith}
use proxy_go.Prelude.Int.{pos}
use proxy_go.Proxy.Writer.{Call, write_header, write, flush, observed}
use proxy_go.Proxy.Writer.Observed.{observed_lem}

abbrev two_parts : List Call
two_parts = write_header 404 ∷ write 10 ∷ flush ∷ write 5 ∷ []

hints_test : (observed (write_header 103 ∷ write_header 200 ∷ write 5 ∷ [])).status ≡ 103
unfolding observed
hints_test = refl

observed_lem_test : ((observed two_parts).status ≡ 404) × ((observed two_parts).bytes ≡ pos 15)
observed_lem_test = observed_lem two_parts (omega arith)
