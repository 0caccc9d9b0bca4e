-- ===== src/Proxy/Paths/Tests.antt =====
-- Paths and hosts of a few requests.
use proxy_go.Prelude.{
  length, All, text_beq, nat_eq, text_eq, ◌≤◌, ◌≡◌, refl, true, ◌∷◌, ◌++◌, arith,
}
use proxy_go.Text.{codes, to_lower}
use proxy_go.Proxy.Paths.{single_join, sanitize_host_for_log, is_exploit_path}
use proxy_go.Proxy.Paths.Join.{chop_end, chop_start, single_join_lem}
use proxy_go.Proxy.Paths.Host.{HostByte, sanitize_host_for_log_bounds}
use proxy_go.Proxy.Paths.Exploit.{is_exploit_path-append}

single_join_test : single_join (codes "/api/") (codes "/v1") ≡ codes "/api/v1"
unfolding single_join text_beq
single_join_test = refl

single_join_lem_test :
    single_join (codes "/api/") (codes "/v1")
    ≡ chop_end (codes "/api/") ++ b'/' ∷ chop_start (codes "/v1")
single_join_lem_test =
    single_join_lem (codes "/api/") (codes "/v1") (λ e. ground (arith, e)) (λ e. ground (arith, e))
      (λ e. ground (arith, e)) (λ e. ground (arith, e))

sanitize_host_for_log_bounds_test :
    let shown = sanitize_host_for_log (codes "a<b>.example") in
    All HostByte shown × (length shown ≤ 253) × (sanitize_host_for_log shown ≡ shown)
sanitize_host_for_log_bounds_test = sanitize_host_for_log_bounds (codes "a<b>.example")

is_exploit_path-append_test : is_exploit_path (codes "/WP-Admin" ++ codes "/x") ≡ true
unfolding to_lower text_beq
is_exploit_path-append_test =
    is_exploit_path-append (codes "/wp-admin") (codes "/WP-Admin") (codes "/x") refl refl
