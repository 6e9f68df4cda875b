-- ===== src/Store/Assoc.antt =====
-- A segment for the witnesses: an association list that never runs out, behind a mutex that is free.
-- It meets the laws, so the theorems on src/KVStore.cpp have instances.
use hpe_distributed_key_valu.Prelude.{
  ◌≡◌, refl, List, [], ◌∷◌, Option, none, some, arith, if◌then◌else◌, length, Text, ℤ, ◌==ℤ◌,
  ==ℤ_iff,
}
use hpe_distributed_key_valu.Store.Boost.{done, Segment, IsMap}

module _ {ℓ} {V : Type ℓ} where
  unfoldable pub lookup : ℤ → List (ℤ × V) → Option V
  lookup k [] = none
  lookup k ((j, v) ∷ l) = if j ==ℤ k then some v else lookup k l

  unfoldable pub remove : ℤ → List (ℤ × V) → List (ℤ × V)
  remove k [] = []
  remove k ((j, v) ∷ l) = let rest = remove k l in if j ==ℤ k then rest else (j, v) ∷ rest

  pub lookup-remove :
      (k j : ℤ) (l : List (ℤ × V)) → lookup j (remove k l) ≡ (if k ==ℤ j then none else lookup j l)
  unfolding lookup remove
  lookup-remove k j [] = ground arith
  lookup-remove k j ((i, v) ∷ l) =
      ground (arith, lookup-remove k j l, ==ℤ_iff i k, ==ℤ_iff i j, ==ℤ_iff k j)

  pub lookup-cons :
      (k j : ℤ) (v : V) (l : List (ℤ × V))
      → lookup j ((k, v) ∷ remove k l) ≡ (if k ==ℤ j then some v else lookup j l)
  unfolding lookup
  lookup-cons k j v l = ground (arith, lookup-remove k j l)

abbrev pub assoc_segment : Segment
assoc_segment = record {
  Mem = List (ℤ × Text);
  lock = λ m. none;
  find = lookup;
  insert = λ k v m. done ((k, v) ∷ remove k m);
  assign = λ k v m. done ((k, v) ∷ remove k m);
  erase = remove;
  size = length;
  flush = λ m. m;
  get_free_memory = λ m. 1000;
}

stored_list : {M : Type 0} {a b : M} → done a ≡ done b → b ≡ a
stored_list d = cc

pub assoc-IsMap : IsMap assoc_segment
assoc-IsMap = record {
  find-insert = λ k j v m m' e d. rw (stored_list d) (lookup-cons k j v m);
  find-insert_raised = λ k j v m m' x d. cc;
  find-assign = λ k j v old m m' e d. rw (stored_list d) (lookup-cons k j v m);
  find-assign_raised = λ k j v m m' x d. cc;
  find-erase = λ k j m. lookup-remove k j m;
  find-flush = λ j m. refl;
  lock-insert = λ k v m m' d. refl;
  lock-assign = λ k v m m' d. refl;
  lock-erase = λ k m. refl;
  lock-flush = λ m. refl;
}
