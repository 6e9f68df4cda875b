-- ===== src/Store/Listing.antt =====
-- `ListAllKeys` of src/KVStore.cpp against `Find` and `GetMapSize`.
use hpe_distributed_key_valu.Prelude.{
  Bool, ℕ, ◌≡◌, refl, sym, ap, ◌∙◌, true, false, List, [], ◌∷◌, ◌++◌, Option, none, some, arith,
  length, Text, codes, ℤ,
}
use hpe_distributed_key_valu.Store.Boost.{Exception, Segment}
use hpe_distributed_key_valu.Store.Assoc.{lookup}
use hpe_distributed_key_valu.Store.Defs.{
  KvStore, what, segment, past_guard, locked, map_missing, found_text, find_value, get_map_size,
}
use hpe_distributed_key_valu.Store.Printing.{
  Contents, IsContents, no_list, all_keys, printed_pairs, refused, listed, list_all_keys,
}

abbrev pub text_or : Option Text → Text
text_or none = codes "key not found"
text_or (some value) = value

lookup-printed_pairs :
    (k : ℤ) (l : List (ℤ × Text)) → text_or (lookup k (printed_pairs l)) ≡ found_text (lookup k l)
unfolding lookup
lookup-printed_pairs k [] = refl
lookup-printed_pairs k ((j, v) ∷ l) = ground (arith, lookup-printed_pairs k l)

length-printed_pairs : (l : List (ℤ × Text)) → length (printed_pairs l) ≡ length l
length-printed_pairs [] = refl
length-printed_pairs ((j, v) ∷ l) = omega (arith, length-printed_pairs l)

count_of :
    {n count : ℕ} {l pairs : List (ℤ × Text)} → all_keys n l ≡ all_keys count pairs → n ≡ count
count_of e = cc

pairs_of :
    {n count : ℕ} {l pairs : List (ℤ × Text)} → all_keys n l ≡ all_keys count pairs → l ≡ pairs
pairs_of e = cc

-- When `ListAllKeys` prints pairs, it prints as many as it says and as `GetMapSize` says, and for
-- every key `Find` gives the text that is printed with the key, or that the key is not found.
pub list_all_keys-find_value :
    (S : Segment) (B : Contents S)
    → IsContents S B
    → (kv : KvStore S.Mem) (count : ℕ) (pairs : List (ℤ × Text))
    → list_all_keys S B kv ≡ all_keys count pairs
    → (count ≡ get_map_size S kv)
      × (length pairs ≡ count)
      × ((k : ℤ) → text_or (lookup k pairs) ≡ find_value S k kv)
unfolding list_all_keys find_value get_map_size
list_all_keys-find_value S B law kv count pairs h = by_guard (map_missing kv) (segment kv) h
  where
    Matches : ℕ → (ℤ → Text) → Type 0
    Matches n answer =
        (count ≡ n) × (length pairs ≡ count) × ((k : ℤ) → text_or (lookup k pairs) ≡ answer k)

    by_lock :
        (m : S.Mem) (o : Option Exception)
        → locked S no_list (listed S B) m o ≡ all_keys count pairs
        → Matches
            (locked S (λ _. 0) S.size m o)
            (λ k. locked S (λ x. codes "Error: " ++ what x) (λ m. found_text (S.find k m)) m o)
    by_lock m (some x) e = absurd (cc)
    by_lock m none e = (
      sym (count_of e),
      ap length (sym (pairs_of e))
          ∙ (length-printed_pairs (B.entries m) ∙ (law.entries_count m ∙ count_of e)),
      λ k.
          ap (λ l. text_or (lookup k l)) (sym (pairs_of e))
          ∙ (lookup-printed_pairs k (B.entries m) ∙ ap found_text (law.entries_found k m)),
    )

    by_guard :
        (b : Bool) (o : Option S.Mem)
        → past_guard S (refused S B) no_list (listed S B) b o ≡ all_keys count pairs
        → Matches (past_guard S (λ _. 0) (λ _. 0) S.size b o) (λ k.
          past_guard S
            (λ _. codes "Map not found")
            (λ x. codes "Error: " ++ what x)
            (λ m. found_text (S.find k m))
            b
            o)
    by_guard true o e = absurd (cc)
    by_guard false none e = absurd (cc)
    by_guard false (some m) e = by_lock m (S.lock m) e
