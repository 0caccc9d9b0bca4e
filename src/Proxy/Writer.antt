-- ===== src/Proxy/Writer.antt =====
-- internal/proxy/router.go: `countingWriter`, which notes the status and the bytes of an answer
-- while it passes the calls on.
pub mod Observed
mod Tests
use proxy_go.Prelude.{
  if◌then◌else◌, nat_eq, text_eq, ℕ, ◌+◌, ◌%◌, ◌^◌, Bool, true, false, not, List, [], ◌∷◌,
}
use proxy_go.Prelude.Int.{ℤ, int64}

-- `bytes` holds the 64 bits of the int64.
pub record CountingWriter : Type 0 where
  pub status : ℕ
  pub bytes : ℕ
  pub wrote_header : Bool

-- A call of the writer. A `Write` comes with the number of bytes that the writer below took.
pub data Call : Type 0 where
  write_header : ℕ → Call
  write : ℕ → Call
  flush : Call

-- what a request's answer is recorded as
pub record Response : Type 0 where
  pub status : ℕ
  pub bytes : ℤ

abbrev pub u64 : ℕ
u64 = 2 ^ 64

abbrev pub new_writer : CountingWriter
new_writer = record { status = 200; bytes = 0; wrote_header = false }

unfoldable pub call : Call → CountingWriter → CountingWriter
call (write_header code) c =
    if not c.wrote_header then record c { status = code; wrote_header = true } else c
call (write n) c = record c { bytes = (c.bytes + n) % u64; wrote_header = true }
call flush c = c

unfoldable pub calls : List Call → CountingWriter → CountingWriter
unfolding call
calls [] c = c
calls (k ∷ ks) c = calls ks (call k c)

unfoldable pub observed : List Call → Response
unfolding calls int64
observed ks = let c = calls ks new_writer in record { status = c.status; bytes = int64 c.bytes }
