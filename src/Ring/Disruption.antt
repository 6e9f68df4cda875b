-- ===== src/Ring/Disruption.antt =====
-- The promise of consistent hashing, for `rebuild` and `getPrimaryNode` of
-- src/ConsistentHashRing.cpp: a node that joins takes keys over, and moves none between the others.
use hpe_distributed_key_valu.Prelude.{
  ℕ, zero, suc, ◌<◌, ◌≡◌, refl, ap, ◌∙◌, ◌⊎◌, inl, inr, List, [], ◌∷◌, Option, none, some, arith,
  length, false, is_empty, Text, ℤ, pos, ltb, if◌then◌else◌, Bool-cases, All, negsuc,
}
use hpe_distributed_key_valu.Ring.{
  Token, at, token_less, sort_insert, lower_bound, find_token, primary_at, get_primary_node,
  rebuild, node_tokens, hash_key, stable_sort, all_tokens,
}
use hpe_distributed_key_valu.Ring.Order.{sort_onto, tokens_of, sort_node}

-- The first token that is not below `p`.
first_from : ℕ → List Token → Option Token
first_from p [] = none
first_from p (t ∷ ts) = if ltb t.position p then first_from p ts else some t

-- The token at which the search stops, read off the list.
owner_or : Token → Option Token → Token
owner_or d none = d
owner_or d (some t) = t

owner : ℕ → List Token → Token
unfolding owner_or
owner p ring = owner_or (at ring 0) (first_from p ring)

lower_bound-first_from :
    (p : ℕ) (ring : List Token)
    → ((first_from p ring ≡ none) × (lower_bound p ring ≡ length ring))
      ⊎ ((t : Token) × (first_from p ring ≡ some t)
          × (at ring (lower_bound p ring) ≡ t)
          × (lower_bound p ring < length ring))
unfolding lower_bound first_from
lower_bound-first_from p [] = inl (refl, refl)
lower_bound-first_from p (t ∷ ts) = elim (Bool-cases (ltb t.position p)) [
  | inl below ↦ elim (lower_bound-first_from p ts) [
    | inl (a, b) ↦ inl (rw below a, rw below (ap suc b))
    | inr (u, a, b, c) ↦ inr (u, rw below a, rw below b, rw below (omega arith))
  ]
  | inr stop ↦ inr (t, rw stop, rw stop, rw stop (omega arith))
]

at-find_token : (p : ℕ) (ring : List Token) → at ring (find_token ring p) ≡ owner p ring
unfolding find_token owner
at-find_token p ring = elim (lower_bound-first_from p ring) [
  | inl (a, b) ↦ ground arith
  | inr (u, a, b, c) ↦ rw a (ground arith)
]

first_from-sort_insert :
    (p : ℕ) (t : Token) (ring : List Token)
    → (first_from p (sort_insert t ring) ≡ first_from p ring)
      ⊎ (first_from p (sort_insert t ring) ≡ some t)
unfolding first_from sort_insert
first_from-sort_insert p t [] = elim (Bool-cases (ltb t.position p)) [
  | inl below ↦ inl (rw below)
  | inr stop ↦ inr (rw stop)
]
first_from-sort_insert p t (x ∷ xs) = elim (Bool-cases (token_less x t)) [
  | inl less ↦ rw less (elim (Bool-cases (ltb x.position p)) [
    | inl below ↦ rw below (first_from-sort_insert p t xs)
    | inr stop ↦ inl (rw stop)
  ])
  | inr more ↦ rw more (elim (Bool-cases (ltb t.position p)) [
    | inl below ↦ inl (rw below)
    | inr stop ↦ inr (rw stop)
  ])
]

head-sort_insert :
    (t u : Token) (ring : List Token)
    → (at (sort_insert t (u ∷ ring)) 0 ≡ u) ⊎ (at (sort_insert t (u ∷ ring)) 0 ≡ t)
unfolding sort_insert
head-sort_insert t u ring = elim (Bool-cases (token_less u t)) [
  | inl less ↦ inl (rw less)
  | inr more ↦ inr (rw more)
]

-- One more token takes the position over, or leaves it where it was.
owner-sort_insert :
    (p : ℕ) (t u : Token) (ring : List Token)
    → (owner p (sort_insert t (u ∷ ring)) ≡ owner p (u ∷ ring))
      ⊎ (owner p (sort_insert t (u ∷ ring)) ≡ t)
unfolding owner owner_or
owner-sort_insert p t u ring = elim (first_from-sort_insert p t (u ∷ ring)) [
  | inl same ↦ rw same (choose (first_from p (u ∷ ring)))
  | inr taken ↦ inr (rw taken)
]
  where
    choose :
        (o : Option Token)
        → (owner_or (at (sort_insert t (u ∷ ring)) 0) o ≡ owner_or u o)
          ⊎ (owner_or (at (sort_insert t (u ∷ ring)) 0) o ≡ t)
    choose none = head-sort_insert t u ring
    choose (some w) = inl refl

sort_insert-nonempty :
    (t : Token) (ring : List Token)
    → (u : Token) × (rest : List Token) × (sort_insert t ring ≡ u ∷ rest)
unfolding sort_insert
sort_insert-nonempty t [] = (t, [], refl)
sort_insert-nonempty t (x ∷ xs) = elim (Bool-cases (token_less x t)) [
  | inl less ↦ (x, sort_insert t xs, rw less)
  | inr more ↦ (t, x ∷ xs, rw more)
]

module _ (id : ℤ) (p : ℕ) (u : Token) (ring : List Token) where
  is_empty-sort_onto : (ts : List Token) → is_empty (sort_onto ts (u ∷ ring)) ≡ false
  unfolding sort_onto
  is_empty-sort_onto [] = refl
  is_empty-sort_onto (t ∷ ts) = ap is_empty (sort_insert-nonempty t (sort_onto ts (u ∷ ring))).2

  -- The tokens of the node `id` leave the owner's node, or make it `id`.
  owner-sort_onto :
      (ts : List Token)
      → All (λ t. t.node_id ≡ id) ts
      → ((owner p (sort_onto ts (u ∷ ring))).node_id ≡ (owner p (u ∷ ring)).node_id)
        ⊎ ((owner p (sort_onto ts (u ∷ ring))).node_id ≡ id)
  unfolding sort_onto
  owner-sort_onto [] h = inl refl
  owner-sort_onto (t ∷ ts) h =
      step (sort_onto ts (u ∷ ring)) (is_empty-sort_onto ts) (owner-sort_onto ts h.1)
    where
      step :
          (r : List Token)
          → is_empty r ≡ false
          → ((owner p r).node_id ≡ (owner p (u ∷ ring)).node_id) ⊎ ((owner p r).node_id ≡ id)
          → ((owner p (sort_insert t r)).node_id ≡ (owner p (u ∷ ring)).node_id)
            ⊎ ((owner p (sort_insert t r)).node_id ≡ id)
      step [] e ih = cc
      step (x ∷ xs) e ih = elim (owner-sort_insert p t x xs) [
        | inl same ↦ rw same ih
        | inr taken ↦ inr (ap (λ (w : Token). w.node_id) taken ∙ h.0)
      ]

node_tokens-node :
    (id : ℤ) (base interval v left : ℕ)
    → All (λ t. t.node_id ≡ id) (node_tokens id base interval v left)
unfolding node_tokens
node_tokens-node id base interval v zero = tt
node_tokens-node id base interval v (suc left) =
    (refl, node_tokens-node id base interval (suc v) left)

get_primary_node-owner :
    (ring : List Token) (key : ℤ)
    → is_empty ring ≡ false
    → get_primary_node ring key ≡ (owner (hash_key key) ring).node_id
unfolding get_primary_node primary_at
get_primary_node-owner ring key h =
    rw h (ap (λ (t : Token). t.node_id) (at-find_token (hash_key key) ring))

join_ring :
    (ts ring : List Token) (id key : ℤ)
    → All (λ t. t.node_id ≡ id) ts
    → is_empty ring ≡ false
    → (get_primary_node (sort_onto ts ring) key ≡ get_primary_node ring key)
      ⊎ (get_primary_node (sort_onto ts ring) key ≡ id)
join_ring ts [] id key h e = cc
join_ring ts (u ∷ ring) id key h e =
    rw
      (
        get_primary_node-owner (sort_onto ts (u ∷ ring)) key
            (is_empty-sort_onto id (hash_key key) u ring ts),
        get_primary_node-owner (u ∷ ring) key refl,
      )
      (owner-sort_onto id (hash_key key) u ring ts h)

-- When a node joins a ring that is not empty, each key keeps its primary, or has the new node as
-- its primary: no key moves between the nodes that were there.
pub join_moves_to_new :
    (joined : ℤ × Text) (nodes : List (ℤ × Text)) (virtual_nodes key : ℤ)
    → is_empty (rebuild nodes virtual_nodes) ≡ false
    → (get_primary_node (rebuild (joined ∷ nodes) virtual_nodes) key
        ≡ get_primary_node (rebuild nodes virtual_nodes) key)
      ⊎ (get_primary_node (rebuild (joined ∷ nodes) virtual_nodes) key ≡ joined.0)
unfolding rebuild
join_moves_to_new joined nodes (negsuc n) key h = cc
join_moves_to_new joined nodes (pos zero) key h = cc
join_moves_to_new joined nodes (pos (suc n)) key h = rw sort_node (
    join_ring (tokens_of (suc n) joined) (stable_sort (all_tokens nodes (suc n))) joined.0 key
      (node_tokens-node joined.0 _ _ 0 (suc n)) h)
