-- ===== src/Proxy/Paths.antt =====
-- internal/proxy/router.go: joining paths, the host in error pages, the exploit filter.
pub mod Join
pub mod Host
pub mod Exploit
mod Tests
use proxy_go.Text.{codes, to_lower, has_prefix, contains_text}
use proxy_go.Prelude.{
  leb, if◌then◌else◌, is_empty, get_or, drop, ◌==◌, Text, nat_eq, text_eq, ℕ, zero, suc, Bool,
  false, not, ◌&&◌, ◌||◌, List, [], ◌∷◌, ◌++◌,
}

-- `a[len(a)-1]` of a text that is not empty
abbrev last_byte : Text → ℕ
last_byte [] = 0
last_byte (c ∷ []) = c
last_byte (c ∷ d ∷ s) = last_byte (d ∷ s)

abbrev first_byte : Text → ℕ
first_byte b = get_or b 0 0

unfoldable pub single_join : Text → Text → Text
single_join a b =
    if is_empty a || a == codes "/"
    then b
    else if is_empty b || b == codes "/"
    then a
    else if last_byte a == b'/' && first_byte b == b'/'
    then a ++ drop 1 b
    else if not (last_byte a == b'/') && not (first_byte b == b'/')
    then a ++ b'/' ∷ b
    else a ++ b

abbrev pub is_host_byte : ℕ → Bool
is_host_byte c =
    (leb b'a' c && leb c b'z')
    || (leb b'A' c && leb c b'Z')
    || (leb b'0' c && leb c b'9')
    || c == b'.'
    || c == b':'
    || c == b'-'

-- the loop of `sanitizeHostForLog`, with the number of bytes that it may still read
sanitize_bytes : ℕ → Text → Text
sanitize_bytes n [] = []
sanitize_bytes zero (c ∷ s) = []
sanitize_bytes (suc n) (c ∷ s) =
    let rest = sanitize_bytes n s in if is_host_byte c then c ∷ rest else rest

unfoldable pub sanitize_host_for_log : Text → Text
unfolding sanitize_bytes
sanitize_host_for_log host = sanitize_bytes 253 host

-- the alternatives of `commonExploitPattern`, which is anchored, ends nowhere and ignores case
abbrev pub exploit_paths : List Text
exploit_paths =
    codes "/wp-admin"
    ∷ codes "/wp-login.php"
    ∷ codes "/wp-content"
    ∷ codes "/xmlrpc.php"
    ∷ codes "/.env"
    ∷ codes "/.git"
    ∷ codes "/phpmyadmin"
    ∷ codes "/administrator"
    ∷ codes "/cgi-bin"
    ∷ codes "/server-status"
    ∷ codes "/owa/"
    ∷ []

-- the alternatives of `scannerUA`, anywhere in the text and in any case
abbrev pub scanner_agents : List Text
scanner_agents =
    codes "sqlmap"
    ∷ codes "nikto"
    ∷ codes "nmap"
    ∷ codes "masscan"
    ∷ codes "acunetix"
    ∷ codes "nessus"
    ∷ codes "libwww-perl"
    ∷ codes "whatweb"
    ∷ codes "wpscan"
    ∷ []

has_any_prefix : Text → List Text → Bool
has_any_prefix s [] = false
has_any_prefix s (p ∷ ps) = has_prefix s p || has_any_prefix s ps

contains_any : Text → List Text → Bool
contains_any s [] = false
contains_any s (p ∷ ps) = contains_text s p || contains_any s ps

unfoldable pub is_exploit_path : Text → Bool
unfolding has_any_prefix
is_exploit_path path = has_any_prefix (to_lower path) exploit_paths

unfoldable pub is_scanner : Text → Bool
unfolding contains_any
is_scanner agent = contains_any (to_lower agent) scanner_agents
