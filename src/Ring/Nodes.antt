-- ===== src/Ring/Nodes.antt =====
-- src/ConsistentHashRing.cpp: the nodes on the ring that `rebuild` makes are those of its map.
use mathlib.Core.Path.{subst}
use hpe_distributed_key_valu.Prelude.{
  ℕ, zero, suc, ◌+◌, ◌%◌, ◌<◌, ◌≡◌, ◌≢◌, refl, sym, ap, ◌∙◌, inl, inr, Bool, true, false, ◌||◌,
  List, [], ◌∷◌, ◌++◌, some, arith, any, All, All-append, All-get_or, length, is_empty, Bool-cases,
  Text, ℤ, pos, negsuc, ◌==ℤ◌, ==ℤ_iff, ==ℤ_refl,
}
use hpe_distributed_key_valu.Ring.{
  Token, at, null_token, sort_insert, stable_sort, node_tokens, all_tokens, rebuild, hash_node_id,
  token_interval, find_token, hash_key, primary_at, get_primary_node, get_buddy_node,
}
use hpe_distributed_key_valu.Ring.Sorted.{All-stable_sort, rebuild-nonempty}
use hpe_distributed_key_valu.Ring.Primary.{find_token-lt}
use hpe_distributed_key_valu.Ring.Buddy.{IsBuddy, get_buddy_node_lem}

-- The map has the id.
abbrev pub IsNode : List (ℤ × Text) → ℤ → Type 0
IsNode nodes id = any (λ p. p.0 ==ℤ id) nodes ≡ true

abbrev owns : ℤ → Token → Bool
owns id t = t.node_id ==ℤ id

-- Every token is of a node of the map.
IsNode-self : (nodes : List (ℤ × Text)) → All (λ p. IsNode nodes p.0) nodes
IsNode-self [] = tt
IsNode-self (p ∷ nodes) = (rw (==ℤ_refl p.0) refl, later nodes (IsNode-self nodes))
  where
    later :
        (ps : List (ℤ × Text))
        → All (λ q. IsNode nodes q.0) ps
        → All (λ q. IsNode (p ∷ nodes) q.0) ps
    later [] h = tt
    later (q ∷ qs) h = (ground (arith, h.0), later qs h.1)

node_tokens-All {κ} :
    (P : ℤ → Type κ) (id : ℤ) (base interval v left : ℕ)
    → P id
    → All (λ t. P t.node_id) (node_tokens id base interval v left)
unfolding node_tokens
node_tokens-All P id base interval v zero h = tt
node_tokens-All P id base interval v (suc left) h =
    (h, node_tokens-All P id base interval (suc v) left h)

all_tokens-All {κ} :
    (P : ℤ → Type κ) (nodes : List (ℤ × Text)) (v : ℕ)
    → All (λ p. P p.0) nodes
    → All (λ t. P t.node_id) (all_tokens nodes v)
unfolding all_tokens
all_tokens-All P [] v h = tt
all_tokens-All P ((id, _) ∷ nodes) v h =
    All-append (λ t. P t.node_id) (node_tokens id _ _ 0 v) (all_tokens nodes v)
      (node_tokens-All P id _ _ 0 v h.0) (all_tokens-All P nodes v h.1)

pub rebuild-All :
    (nodes : List (ℤ × Text)) (virtual_nodes : ℤ)
    → All (λ t. IsNode nodes t.node_id) (rebuild nodes virtual_nodes)
unfolding rebuild
rebuild-All nodes (negsuc n) = tt
rebuild-All nodes (pos zero) = tt
rebuild-All nodes (pos (suc n)) =
    All-stable_sort _ (all_tokens nodes (suc n))
      (all_tokens-All (IsNode nodes) nodes (suc n) (IsNode-self nodes))

-- Every node of the map has a token.
any-sort_insert :
    (q : Token → Bool) (t : Token) (ts : List Token) → any q (sort_insert t ts) ≡ (q t || any q ts)
unfolding sort_insert
any-sort_insert q t [] = refl
any-sort_insert q t (x ∷ xs) = ground (arith, any-sort_insert q t xs)

any-stable_sort : (q : Token → Bool) (ts : List Token) → any q (stable_sort ts) ≡ any q ts
unfolding stable_sort
any-stable_sort q [] = refl
any-stable_sort q (t ∷ ts) =
    any-sort_insert q t (stable_sort ts) ∙ ap (λ b. q t || b) (any-stable_sort q ts)

any-append : (q : Token → Bool) (xs ys : List Token) → any q (xs ++ ys) ≡ (any q xs || any q ys)
any-append q [] ys = refl
any-append q (x ∷ xs) ys = ground (arith, any-append q xs ys)

any-all_tokens :
    (id : ℤ) (nodes : List (ℤ × Text)) (n : ℕ)
    → IsNode nodes id
    → any (owns id) (all_tokens nodes (suc n)) ≡ true
unfolding all_tokens node_tokens
any-all_tokens id [] n h = cc
any-all_tokens id ((k, _) ∷ nodes) n h = ground (
  arith,
  any-append (owns id) (node_tokens k (hash_node_id k) (token_interval (suc n)) 1 n)
      (all_tokens nodes (suc n)),
  any-all_tokens id nodes n,
)

rebuild-has_token :
    (id : ℤ) (nodes : List (ℤ × Text)) (n : ℕ)
    → IsNode nodes id
    → any (owns id) (rebuild nodes (pos (suc n))) ≡ true
unfolding rebuild
rebuild-has_token id nodes n h =
    any-stable_sort (owns id) (all_tokens nodes (suc n)) ∙ any-all_tokens id nodes n h

one_owner :
    (id x : ℤ) (ring : List Token)
    → any (owns id) ring ≡ true
    → ((k : ℕ) → k < length ring → (at ring k).node_id ≡ x)
    → id ≡ x
one_owner id x [] h same = absurd (cc)
one_owner id x (t ∷ ts) h same = elim (Bool-cases (t.node_id ==ℤ id)) [
  | inl first ↦ sym ((==ℤ_iff t.node_id id).0 first) ∙ same 0 (omega arith)
  | inr other ↦ one_owner id x ts (ground (arith, h)) (λ k lt. same (suc k) (omega (arith, lt)))
]

primary_token :
    (ring : List Token) (key : ℤ)
    → is_empty ring ≡ false
    → get_primary_node ring key ≡ (at ring (find_token ring (hash_key key))).node_id
unfolding get_primary_node primary_at
primary_token ring key h = rw h refl

-- On a ring with a token, all of whose tokens are of nodes of the map, which all have one.
module _ (nodes : List (ℤ × Text)) (ring : List Token) (key : ℤ)
    (some_token : is_empty ring ≡ false) (of_nodes : All (λ t. IsNode nodes t.node_id) ring)
    (has_token : (id : ℤ) → IsNode nodes id → any (owns id) ring ≡ true) where
  abbrev place : ℕ
  place = find_token ring (hash_key key)

  buddy_place :
      (b : ℤ)
      → IsBuddy ring place b
      → IsNode nodes b
        × ((other : ℤ)
            → IsNode nodes other
            → other ≢ (at ring place).node_id
            → b ≢ (at ring place).node_id)
  buddy_place b (inl (m, m-pos, m-lt, e, apart, before)) = (
    subst (IsNode nodes) (sym e) (
        All-get_or (λ t. IsNode nodes t.node_id) ring ((place + m) % length ring) null_token
          of_nodes (omega (arith, m-lt))),
    λ other o ne. apart,
  )
  buddy_place b (inr (e, same)) = (
    subst (IsNode nodes) (sym e) (
        All-get_or (λ t. IsNode nodes t.node_id) ring place null_token of_nodes
          (find_token-lt ring (hash_key key) some_token)),
    λ other o ne.
        absurd (ne (one_owner other (at ring place).node_id ring (has_token other o) same)),
  )

  ring_places :
      IsNode nodes (get_primary_node ring key)
      × ((b : ℤ) × (get_buddy_node ring key ≡ some b)
          × IsNode nodes b
          × ((other : ℤ)
              → IsNode nodes other
              → other ≢ get_primary_node ring key
              → b ≢ get_primary_node ring key))
  ring_places =
      let (b, found, buddy) = get_buddy_node_lem ring key some_token in
      let there = buddy_place b buddy in
      rw (primary_token ring key some_token) (
        All-get_or (λ t. IsNode nodes t.node_id) ring place null_token of_nodes
            (find_token-lt ring (hash_key key) some_token),
        (b, found, there.0, there.1),
      )

-- On the ring of a map with a node, the primary of a key is a node of the map, and so is its buddy,
-- which is another node than the primary if the map has another.
pub two_places :
    (node : ℤ × Text) (nodes : List (ℤ × Text)) (n : ℕ) (key : ℤ)
    → IsNode (node ∷ nodes) (get_primary_node (rebuild (node ∷ nodes) (pos (suc n))) key)
      × ((b : ℤ) × (get_buddy_node (rebuild (node ∷ nodes) (pos (suc n))) key ≡ some b)
          × IsNode (node ∷ nodes) b
          × ((other : ℤ)
              → IsNode (node ∷ nodes) other
              → other ≢ get_primary_node (rebuild (node ∷ nodes) (pos (suc n))) key
              → b ≢ get_primary_node (rebuild (node ∷ nodes) (pos (suc n))) key))
two_places node nodes n key =
    ring_places (node ∷ nodes) (rebuild (node ∷ nodes) (pos (suc n))) key
      (rebuild-nonempty node nodes n) (rebuild-All (node ∷ nodes) (pos (suc n)))
      (λ id h. rebuild-has_token id (node ∷ nodes) n h)
