-- ===== src/Proxy/Pool/Tests.antt =====
-- A pool of three upstreams.
use proxy_go.Prelude.{
  get_elem?, nat_eq, text_eq, ℕ, ◌+◌, ◌%◌, ◌<◌, String, ◌≡◌, refl, some, [], ◌∷◌, arith,
}
use proxy_go.Text.{codes}
use proxy_go.Config.Site.{Url}
use proxy_go.Proxy.Pool.{Pool, next_url, next_urls}
use proxy_go.Proxy.Pool.Fairness.{get_elem?-next_urls, next_urls-round}

abbrev node : String → Url
node host = record { scheme = codes "http"; host = codes host; path = [] }

abbrev three_nodes : Pool
three_nodes = record { upstreams = node "a:1" ∷ node "b:2" ∷ node "c:3" ∷ []; next = 4 }

next_urls_test :
    (next_urls 4 three_nodes).0
    ≡ some (node "b:2") ∷ some (node "c:3") ∷ some (node "a:1") ∷ some (node "b:2") ∷ []
unfolding next_urls next_url
next_urls_test = refl

get_elem?-next_urls_test :
    get_elem? (next_urls 5 three_nodes).0 3
    ≡ some (get_elem? three_nodes.upstreams ((three_nodes.next + 3) % 3))
get_elem?-next_urls_test =
    get_elem?-next_urls 5 3 three_nodes (omega arith) (λ e. ground (arith, e)) (omega arith)

next_urls-round_example :
    (i : ℕ) × (i < 3)
    × (get_elem? (next_urls 3 three_nodes).0 i ≡ some (get_elem? three_nodes.upstreams 2))
    × ((k : ℕ) → k < 3 → (three_nodes.next + k) % 3 ≡ 2 → k ≡ i)
next_urls-round_example = next_urls-round three_nodes 2 (omega arith) (omega arith)
