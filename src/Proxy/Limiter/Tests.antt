-- ===== src/Proxy/Limiter/Tests.antt =====
-- Two clients at a limiter of one request a second with a burst of one.
use proxy_go.Text.{codes}
use proxy_go.Prelude.{
  Text, text_beq, nat_eq, text_eq, ◌-◌, ◌*◌, ◌^◌, ◌≤◌, ◌≡◌, refl, some, List, [], ◌∷◌, arith,
}
use proxy_go.Prelude.Int.{pos, negsuc, ◌+ℤ◌, ◌-ℤ◌, int64}
use proxy_go.Dict.{lookup, insert}
use proxy_go.Proxy.Limiter.{Limiter, unit, add_int, new_limiter, allow}
use proxy_go.Proxy.Limiter.Run.{Request, granted, requests}
use proxy_go.Proxy.Limiter.Overflow.{granted-overflow}
use proxy_go.Proxy.Limiter.Spacing.{granted-eq-requests}

abbrev one_and_one : Limiter
one_and_one = record { rps = 1; burst = pos 2_000_000_000; bs = [] }

abbrev alice : Text
alice = codes "10.0.0.1"

abbrev bob : Text
bob = codes "10.0.0.2"

abbrev crowd : List Request
crowd =
    record { key = alice; now = 5 }
    ∷ record { key = bob; now = 6 }
    ∷ record { key = alice; now = 7 }
    ∷ record { key = alice; now = 8 }
    ∷ []

abbrev spaced : List Request
spaced =
    record { key = alice; now = 5 }
    ∷ record { key = bob; now = 6 }
    ∷ record { key = alice; now = 1_000_000_005 }
    ∷ []

new_limiter_test : new_limiter (pos 1) (pos 1) ≡ some one_and_one
unfolding new_limiter int64
new_limiter_test = refl

-- the largest burst of an int64, with which the sum overflows
abbrev wrapped : Limiter
wrapped = record { rps = 1; burst = negsuc (2 ^ 63 * unit - 1); bs = [] }

wrapped_test : new_limiter (pos 1) (pos (2 ^ 63 - 1)) ≡ some wrapped
unfolding new_limiter add_int int64
wrapped_test = refl

granted-overflow_example : granted alice spaced wrapped ≤ 1
granted-overflow_example =
    granted-overflow (pos 1) (pos (2 ^ 63 - 1)) wrapped alice spaced wrapped_test (omega arith)
      (omega arith)

granted_test : granted alice crowd one_and_one ≡ 2
unfolding granted allow ◌+ℤ◌ ◌-ℤ◌ text_beq lookup insert
granted_test = refl

granted-eq-requests_example : granted alice spaced one_and_one ≡ requests alice spaced
unfolding text_beq
granted-eq-requests_example =
    granted-eq-requests (pos 1) (pos 1) one_and_one alice spaced new_limiter_test (omega arith)
      (omega arith, tt)
