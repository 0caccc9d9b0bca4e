-- ===== src/Decimal/Tests.antt =====
-- Numbers that are written and read back.
use proxy_go.Prelude.{nat_eq, text_eq, ◌≡◌, some, arith}
use proxy_go.Prelude.Int.{pos}
use proxy_go.Decimal.{format_int, parse_int}
use proxy_go.Decimal.RoundTrip.{parse_int-format_int}

parse_int-format_int_example : parse_int (format_int 1_700_086_400) ≡ some (pos 1_700_086_400)
parse_int-format_int_example = parse_int-format_int 1_700_086_400 (omega arith)
