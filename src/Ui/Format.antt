-- ===== src/Ui/Format.antt =====
-- internal/ui/ui.go: what the pages show of durations and of amounts of bytes.
use proxy_go.Prelude.{
  ltb, if◌then◌else◌, ◌==◌, Text, nat_eq, text_eq, ℕ, ◌+◌, ◌*◌, ◌/◌, ◌%◌, ◌^◌, ◌∷◌, ◌++◌,
}
use proxy_go.Text.{codes}
use proxy_go.Decimal.{format_int}

-- of a number of whole seconds, to which the duration is cut first
unfoldable pub human_duration : ℕ → Text
human_duration secs =
    if ltb secs 60
    then format_int secs ++ codes "s"
    else if ltb secs 3_600
    then format_int (secs / 60) ++ codes "m"
    else if ltb secs 86_400
    then format_int (secs / 3_600) ++ codes "h " ++ format_int (secs / 60 % 60) ++ codes "m"
    else format_int (secs / 3_600 / 24) ++ codes "d " ++ format_int (secs / 3_600 % 24) ++ codes "h"

-- the nearest integer to n / d, and the even one of two
abbrev pub rounded : ℕ → ℕ → ℕ
rounded n d =
    let q = n / d in
    let twice = 2 * (n % d) in
    if ltb twice d then q else if ltb d twice then q + 1 else if q % 2 == 0 then q else q + 1

-- one and two digits after the point, as `FormatFloat` writes them
one_digit : ℕ → Text
one_digit tenths = format_int (tenths / 10) ++ b'.' ∷ format_int (tenths % 10)

two_digits : ℕ → Text
two_digits cents =
    let rest = format_int (cents % 100) in
    format_int (cents / 100) ++ b'.' ∷ (if ltb (cents % 100) 10 then b'0' ∷ rest else rest)

-- The quotients are exact, as they are in float64 below 2 ^ 53.
unfoldable pub human_bytes : ℕ → Text
unfolding one_digit two_digits
human_bytes n =
    if ltb n (2 ^ 10)
    then format_int n ++ codes " B"
    else if ltb n (2 ^ 20)
    then one_digit (rounded (n * 10) (2 ^ 10)) ++ codes " KB"
    else if ltb n (2 ^ 30)
    then one_digit (rounded (n * 10) (2 ^ 20)) ++ codes " MB"
    else two_digits (rounded (n * 100) (2 ^ 30)) ++ codes " GB"
