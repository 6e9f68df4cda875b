-- ===== src/Ring/Ids.antt =====
-- `rebuild` of src/ConsistentHashRing.cpp: what it reads of the map of nodes.
use hpe_distributed_key_valu.Prelude.{
  ℕ, zero, suc, ◌≡◌, refl, sym, ap, ◌∙◌, List, [], ◌∷◌, ◌++◌, firsts, Text, ℤ, pos, negsuc,
}
use hpe_distributed_key_valu.Ring.{
  Token, rebuild, all_tokens, node_tokens, hash_node_id, token_interval, stable_sort,
}

abbrev tokens_for : List ℤ → ℕ → List Token
tokens_for [] v = []
tokens_for (id ∷ ids) v =
    node_tokens id (hash_node_id id) (token_interval v) 0 v ++ tokens_for ids v

all_tokens-firsts :
    (live : List (ℤ × Text)) (v : ℕ) → all_tokens live v ≡ tokens_for (firsts live) v
unfolding all_tokens
all_tokens-firsts [] v = refl
all_tokens-firsts ((id, _) ∷ live) v =
    ap (λ ts. node_tokens id (hash_node_id id) (token_interval v) 0 v ++ ts)
      (all_tokens-firsts live v)

-- Two maps with the same ids in the same order give the same ring, whatever the endpoints.
pub rebuild-firsts :
    (nodes nodes' : List (ℤ × Text)) (virtual_nodes : ℤ)
    → firsts nodes ≡ firsts nodes'
    → rebuild nodes virtual_nodes ≡ rebuild nodes' virtual_nodes
unfolding rebuild
rebuild-firsts nodes nodes' (negsuc n) h = refl
rebuild-firsts nodes nodes' (pos zero) h = refl
rebuild-firsts nodes nodes' (pos (suc n)) h = ap stable_sort (
    all_tokens-firsts nodes (suc n)
    ∙ (ap (λ ids. tokens_for ids (suc n)) h ∙ sym (all_tokens-firsts nodes' (suc n))))

-- Without nodes the ring is empty.
pub rebuild_nothing : (virtual_nodes : ℤ) → rebuild [] virtual_nodes ≡ []
unfolding rebuild all_tokens stable_sort
rebuild_nothing (negsuc n) = refl
rebuild_nothing (pos zero) = refl
rebuild_nothing (pos (suc n)) = refl
