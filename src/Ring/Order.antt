-- ===== src/Ring/Order.antt =====
-- `rebuild` of src/ConsistentHashRing.cpp: the order in which the map of nodes is iterated does not
-- matter. The container is an `unordered_map`, so that order is not fixed by the map's contents.
use mathlib.Core.Logic.{∥∥₁_elim}
use mathlib.Core.List.{Perm, Permᴰ}
use hpe_distributed_key_valu.Prelude.{
  ℕ, zero, suc, ◌≡◌, refl, sym, ap, ◌∙◌, true, false, List, [], ◌∷◌, ◌++◌, arith, Text, ℤ, pos,
  negsuc, Bool-cases, inl, inr, if◌then◌else◌,
}
use hpe_distributed_key_valu.Ring.{
  Token, token_less, sort_insert, stable_sort, node_tokens, all_tokens, rebuild, hash_node_id,
  token_interval,
}

tokens_eq : (a b : Token) → token_less a b ≡ false → token_less b a ≡ false → a ≡ b
tokens_eq a b h k = ground arith

-- The facts about `token_less` that decide where an insertion stops.
less_chain :
    (a b x : Token) → token_less x a ≡ true → token_less x b ≡ false → token_less b a ≡ true
less_chain a b x h k = ground arith

insert_front :
    (a b : Token) (ts : List Token)
    → (if token_less b a then b ∷ a ∷ ts else a ∷ b ∷ ts)
      ≡ (if token_less a b then a ∷ b ∷ ts else b ∷ a ∷ ts)
insert_front a b ts = ground arith

-- `b` stands before `x`, and `a` behind it.
insert_apart :
    (a b x : Token) (xs : List Token)
    → token_less x a ≡ true
    → token_less x b ≡ false
    → sort_insert a (sort_insert b (x ∷ xs)) ≡ sort_insert b (sort_insert a (x ∷ xs))
unfolding sort_insert
insert_apart a b x xs h k = rw (k, h, less_chain a b x h k, k)

sort_insert_comm :
    (a b : Token) (ts : List Token)
    → sort_insert a (sort_insert b ts) ≡ sort_insert b (sort_insert a ts)
unfolding sort_insert
sort_insert_comm a b [] = insert_front a b []
sort_insert_comm a b (x ∷ xs) = elim (Bool-cases (token_less x a)) [
  | inl xa ↦ elim (Bool-cases (token_less x b)) [
    | inl xb ↦ rw (xb, xa, xb) (ap (◌∷◌ x) (sort_insert_comm a b xs))
    | inr bx ↦ insert_apart a b x xs xa bx
  ]
  | inr ax ↦ elim (Bool-cases (token_less x b)) [
    | inl xb ↦ sym (insert_apart b a x xs xb ax)
    | inr bx ↦ rw (bx, ax, bx) (insert_front a b (x ∷ xs))
  ]
]

-- Inserts each token of the first list.
unfoldable pub sort_onto : List Token → List Token → List Token
unfolding sort_insert
sort_onto [] ring = ring
sort_onto (t ∷ ts) ring = sort_insert t (sort_onto ts ring)

stable_sort-append : (xs ys : List Token) → stable_sort (xs ++ ys) ≡ sort_onto xs (stable_sort ys)
unfolding stable_sort sort_onto
stable_sort-append [] ys = refl
stable_sort-append (x ∷ xs) ys = ap (sort_insert x) (stable_sort-append xs ys)

sort_onto-sort_insert :
    (ts : List Token) (a : Token) (ring : List Token)
    → sort_onto ts (sort_insert a ring) ≡ sort_insert a (sort_onto ts ring)
unfolding sort_onto
sort_onto-sort_insert [] a ring = refl
sort_onto-sort_insert (t ∷ ts) a ring =
    ap (sort_insert t) (sort_onto-sort_insert ts a ring) ∙ sort_insert_comm t a (sort_onto ts ring)

sort_onto_comm :
    (xs ys ring : List Token) → sort_onto xs (sort_onto ys ring) ≡ sort_onto ys (sort_onto xs ring)
unfolding sort_onto
sort_onto_comm [] ys ring = refl
sort_onto_comm (x ∷ xs) ys ring =
    ap (sort_insert x) (sort_onto_comm xs ys ring)
    ∙ sym (sort_onto-sort_insert ys x (sort_onto xs ring))

-- What one node adds to the ring.
abbrev pub tokens_of : ℕ → ℤ × Text → List Token
tokens_of v (id, _) = node_tokens id (hash_node_id id) (token_interval v) 0 v

pub sort_node :
    (v : ℕ) (p : ℤ × Text) (nodes : List (ℤ × Text))
    → stable_sort (all_tokens (p ∷ nodes) v)
      ≡ sort_onto (tokens_of v p) (stable_sort (all_tokens nodes v))
unfolding all_tokens
sort_node v p nodes = stable_sort-append (tokens_of v p) (all_tokens nodes v)

sort_permᴰ :
    (v : ℕ) {ps qs : List (ℤ × Text)}
    → Permᴰ ps qs
    → stable_sort (all_tokens ps v) ≡ stable_sort (all_tokens qs v)
sort_permᴰ v Permᴰ.nil = refl
sort_permᴰ v (Permᴰ.cons {a = a} {b = b} {l₁ = l} {l₂ = m} e p) =
    rw (sort_node v a l, sort_node v b m, e, sort_permᴰ v p)
sort_permᴰ v (Permᴰ.swap {a = a} {b = b} {a' = a'} {b' = b'} {l = l} e f) =
    rw (sort_node v a (b ∷ l), sort_node v b l, sort_node v a' (b' ∷ l), sort_node v b' l, e, f)
      (sort_onto_comm (tokens_of v b') (tokens_of v a') (stable_sort (all_tokens l v)))
sort_permᴰ v (Permᴰ.trans p q) = sort_permᴰ v p ∙ sort_permᴰ v q

ring_set : IsSet (List Token)
ring_set = hlevel

-- Two maps with the same nodes give the same ring, in whatever order they are iterated.
pub rebuild-perm :
    (nodes nodes' : List (ℤ × Text)) (virtual_nodes : ℤ)
    → Perm nodes nodes'
    → rebuild nodes virtual_nodes ≡ rebuild nodes' virtual_nodes
unfolding rebuild
rebuild-perm nodes nodes' (negsuc n) h = refl
rebuild-perm nodes nodes' (pos zero) h = refl
rebuild-perm nodes nodes' (pos (suc n)) h = ∥∥₁_elim h (ring_set _ _) (sort_permᴰ (suc n))
