-- ===== src/Proxy/Writer/Observed.antt =====
-- What a sequence of calls is recorded as.
use proxy_go.Prelude.{
  nat_eq, text_eq, ℕ, ◌+◌, ◌%◌, ◌^◌, ◌<◌, ◌≡◌, refl, ◌∙◌, true, false, List, [], ◌∷◌, arith,
}
use proxy_go.Prelude.Int.{int64, pos}
use proxy_go.Proxy.Writer.{
  CountingWriter, Call, write_header, write, flush, u64, new_writer, call, calls, observed,
}

-- the status that the client is sent first: a body with no header before it goes out with 200
abbrev pub first_status : List Call → ℕ
first_status [] = 200
first_status (write_header code ∷ ks) = code
first_status (write n ∷ ks) = 200
first_status (flush ∷ ks) = first_status ks

abbrev pub body_bytes : List Call → ℕ
body_bytes [] = 0
body_bytes (write n ∷ ks) = n + body_bytes ks
body_bytes (write_header code ∷ ks) = body_bytes ks
body_bytes (flush ∷ ks) = body_bytes ks

-- once the header is out the status stays
status-written :
    (ks : List Call) (c : CountingWriter) → c.wrote_header ≡ true → (calls ks c).status ≡ c.status
unfolding calls call
status-written [] c h = refl
status-written (write_header code ∷ ks) c h =
    status-written ks (call (write_header code) c) (ground (arith, h)) ∙ (ground (arith, h))
status-written (write n ∷ ks) c h = status-written ks (call (write n) c) refl
status-written (flush ∷ ks) c h = status-written ks c h

status-calls :
    (ks : List Call) (c : CountingWriter)
    → c.wrote_header ≡ false
    → c.status ≡ 200
    → (calls ks c).status ≡ first_status ks
unfolding calls call
status-calls [] c h s = s
status-calls (write_header code ∷ ks) c h s =
    status-written ks (call (write_header code) c) (ground (arith, h)) ∙ (ground (arith, h))
status-calls (write n ∷ ks) c h s = status-written ks (call (write n) c) refl ∙ s
status-calls (flush ∷ ks) c h s = status-calls ks c h s

bytes-calls :
    (ks : List Call) (c : CountingWriter)
    → c.bytes + body_bytes ks < u64
    → (calls ks c).bytes ≡ c.bytes + body_bytes ks
unfolding calls call
bytes-calls [] c h = omega arith
bytes-calls (write_header code ∷ ks) c h =
    ground (arith, bytes-calls ks (call (write_header code) c))
bytes-calls (write n ∷ ks) c h =
    let fits : (c.bytes + n) % u64 ≡ c.bytes + n = omega arith in
    let rest : (c.bytes + n) % u64 + body_bytes ks < u64 = omega arith in
    let ih = bytes-calls ks (call (write n) c) rest in ih ∙ (omega arith)
bytes-calls (flush ∷ ks) c h = bytes-calls ks c h

-- An answer is recorded with the status of its first header, 200 if a body comes first, and with all
-- the bytes of its body, if they fit an int64.
pub observed_lem :
    (ks : List Call)
    → body_bytes ks < 2 ^ 63
    → ((observed ks).status ≡ first_status ks) × ((observed ks).bytes ≡ pos (body_bytes ks))
unfolding observed int64
observed_lem ks h =
    let total : (calls ks new_writer).bytes ≡ body_bytes ks =
      bytes-calls ks new_writer (omega arith) ∙ (omega arith) in
    (status-calls ks new_writer refl refl, ground (arith, total))
