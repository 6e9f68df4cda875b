-- ===== src/Tests/Stores.antt =====
-- Instances of the theorems on src/KVStore.cpp, on a store of the memory mode over the association
-- list of Store/Assoc.
use hpe_distributed_key_valu.Decimal.{to_string}
use hpe_distributed_key_valu.Store.Listing.{text_or, list_all_keys-find_value}
use hpe_distributed_key_valu.Store.Printing.{
  Decimals, Contents, IsContents, all_keys, list_all_keys, get_memory_stats, listing_lines,
  get_memory_stats_lem,
}
use hpe_distributed_key_valu.Prelude.{
  ℕ, ◌+◌, ◌*◌, ◌/◌, arith, length, ◌≡◌, refl, true, false, List, [], ◌∷◌, none, some, Text, codes,
  ℤ, pos,
}
use hpe_distributed_key_valu.Store
use hpe_distributed_key_valu.Store.{KvStore, memory, server, inserted, updated, deleted}
use hpe_distributed_key_valu.Store.Assoc.{assoc_segment, assoc-IsMap, lookup}
use hpe_distributed_key_valu.Store.Effects.{IsOpen}
use hpe_distributed_key_valu.Store.Refinement.{
  Write, to_insert, to_update, to_delete, Runs, write_all, contents, write_all-Runs,
}
use hpe_distributed_key_valu.Store.Success.{insert_succeeds, update_succeeds, delete_succeeds}

abbrev pub one_entry : List (ℤ × Text)
one_entry = (pos 5, codes "five") ∷ []

abbrev pub open_store : KvStore (List (ℤ × Text))
open_store = record {
  total_memory_size = 2_000;
  storage_mode = memory;
  conn_mode = server;
  memory_storage = some one_entry;
  file_storage = none;
  memory_map_ptr = true;
  persistent_map_ptr = false;
}

pub open_store-IsOpen : IsOpen open_store one_entry
open_store-IsOpen = record { pointer = refl; mapped = refl }

free_key : lookup (pos 7) one_entry ≡ none
unfolding lookup
free_key = refl

used_key : lookup (pos 5) one_entry ≡ some (codes "five")
unfolding lookup
used_key = refl

room : Store.has_enough_memory assoc_segment open_store 73 ≡ true
unfolding Store.has_enough_memory Store.get_free_memory
room = refl

pub inserts : (Store.insert assoc_segment (pos 7) (codes "seven") open_store).1 ≡ inserted
inserts =
    insert_succeeds assoc_segment assoc-IsMap (pos 7) (codes "seven") open_store one_entry _
      open_store-IsOpen refl room free_key refl

pub updates : (Store.update assoc_segment (pos 5) (codes "V") open_store).1 ≡ updated
updates =
    update_succeeds assoc_segment assoc-IsMap (pos 5) (codes "V") open_store one_entry _
      open_store-IsOpen refl (codes "five") used_key refl refl

pub deletes : (Store.delete assoc_segment (pos 5) open_store).1 ≡ deleted
deletes =
    delete_succeeds assoc_segment assoc-IsMap (pos 5) [] open_store one_entry one_entry
      open_store-IsOpen refl (codes "five") used_key

abbrev requests : List Write
requests =
    to_insert (pos 7) (codes "seven") ∷ to_update (pos 5) (codes "V") ∷ to_delete (pos 5) ∷ []

write_all-Runs_example :
    (left : List (ℤ × Text)) × IsOpen (write_all assoc_segment requests open_store).0 left
    × Runs
        (contents assoc_segment one_entry)
        requests
        (write_all assoc_segment requests open_store).1
        (contents assoc_segment left)
write_all-Runs_example =
    write_all-Runs assoc_segment assoc-IsMap requests open_store one_entry open_store-IsOpen

abbrev assoc_contents : Contents assoc_segment
assoc_contents = record { get_size = λ m. 2_000; entries = λ m. m }

assoc-IsContents : IsContents assoc_segment assoc_contents
assoc-IsContents = record {
  free_within = λ m. omega arith;
  size_fits = λ m. omega arith;
  entries_count = λ m. refl;
  entries_found = λ k m. refl;
}

abbrev whole_numbers : Decimals
whole_numbers = record {
  Double = ℕ;
  zero_double = 0;
  quotient = λ m n. m / n;
  percent = λ q. 100 * q;
  fixed_2 = λ q. to_string (pos q);
}

open_store_stats :
    ((get_memory_stats assoc_segment assoc_contents whole_numbers open_store).used_memory
        + (get_memory_stats assoc_segment assoc_contents whole_numbers open_store).free_memory
      ≡ (get_memory_stats assoc_segment assoc_contents whole_numbers open_store).total_size)
    × ((get_memory_stats assoc_segment assoc_contents whole_numbers open_store).free_memory
        ≡ Store.get_free_memory assoc_segment open_store)
open_store_stats =
    get_memory_stats_lem assoc_segment assoc_contents whole_numbers assoc-IsContents open_store

one_key : list_all_keys assoc_segment assoc_contents open_store ≡ all_keys 1 one_entry
unfolding list_all_keys
one_key = refl

list_all_keys-find_value_example :
    (1 ≡ Store.get_map_size assoc_segment open_store)
    × (length one_entry ≡ 1)
    × ((k : ℤ) → text_or (lookup k one_entry) ≡ Store.find_value assoc_segment k open_store)
list_all_keys-find_value_example =
    list_all_keys-find_value assoc_segment assoc_contents assoc-IsContents open_store 1 one_entry
      one_key

-- What is printed for it.
printed :
    listing_lines (all_keys 1 one_entry)
    ≡ codes ""
      ∷ codes "========== ALL KEYS IN STORAGE =========="
      ∷ codes "Total keys: 1"
      ∷ codes "Key: 5, Value: five"
      ∷ codes "========================================"
      ∷ []
unfolding listing_lines to_string
printed = refl
