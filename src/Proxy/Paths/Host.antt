-- ===== src/Proxy/Paths/Host.antt =====
-- What the error page shows of a host.
use proxy_go.Prelude.{
  Bool-cases, length, All, Text, nat_eq, text_eq, ℕ, zero, suc, ◌≤◌, ◌≡◌, refl, ap, inl, inr, true,
  [], ◌∷◌, arith,
}
use proxy_go.Proxy.Paths.{is_host_byte, sanitize_bytes, sanitize_host_for_log}

abbrev pub HostByte : ℕ → Type 0
HostByte c = is_host_byte c ≡ true

sanitize_bytes-All : (n : ℕ) (s : Text) → All HostByte (sanitize_bytes n s)
unfolding sanitize_bytes
sanitize_bytes-All n [] = tt
sanitize_bytes-All zero (c ∷ s) = tt
sanitize_bytes-All (suc n) (c ∷ s) = elim (Bool-cases (is_host_byte c)) [
  | inl good ↦ rw good (good, sanitize_bytes-All n s)
  | inr bad ↦ rw bad (sanitize_bytes-All n s)
]

length-sanitize_bytes : (n : ℕ) (s : Text) → length (sanitize_bytes n s) ≤ n
unfolding sanitize_bytes
length-sanitize_bytes n [] = omega arith
length-sanitize_bytes zero (c ∷ s) = omega arith
length-sanitize_bytes (suc n) (c ∷ s) = elim (Bool-cases (is_host_byte c)) [
  | inl good ↦ rw good (omega (arith, length-sanitize_bytes n s))
  | inr bad ↦ rw bad (omega (arith, length-sanitize_bytes n s))
]

sanitize_bytes_clean : (n : ℕ) (s : Text) → length s ≤ n → All HostByte s → sanitize_bytes n s ≡ s
unfolding sanitize_bytes
sanitize_bytes_clean n [] h a = refl
sanitize_bytes_clean zero (c ∷ s) h a = absurd (omega arith)
sanitize_bytes_clean (suc n) (c ∷ s) h (good, a) =
    rw good (ap (λ t. c ∷ t) (sanitize_bytes_clean n s (omega arith) a))

-- The host shown has only letters, digits, ".", ":" and "-", at most 253 of them, and showing it
-- again changes nothing.
pub sanitize_host_for_log_bounds :
    (host : Text)
    → (let shown = sanitize_host_for_log host in
        All HostByte shown × (length shown ≤ 253) × (sanitize_host_for_log shown ≡ shown))
unfolding sanitize_host_for_log
sanitize_host_for_log_bounds host =
    let good = sanitize_bytes-All 253 host in
    let short = length-sanitize_bytes 253 host in
    (good, short, sanitize_bytes_clean 253 (sanitize_bytes 253 host) short good)
