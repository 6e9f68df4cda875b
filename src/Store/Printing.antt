-- ===== src/Store/Printing.antt =====
-- `GetMemoryStats`, `PrintMemoryStats` and `ListAllKeys` of src/KVStore.cpp, with the lines that they
-- print. The arithmetic and the text of `double` are parameters, and so are the iteration over the
-- map and the size of a segment, which are Boost's.
use hpe_distributed_key_valu.Prelude.{
  ℕ, ◌+◌, ◌-◌, ◌*◌, ◌%◌, ◌≤◌, ◌<◌, ◌≡◌, refl, List, [], ◌∷◌, ◌++◌, Option, none, some, arith,
  if◌then◌else◌, length, Text, codes, c_str, ℤ, pos,
}
use hpe_distributed_key_valu.Decimal.{to_string}
use hpe_distributed_key_valu.Store.Boost.{Exception, Segment}
use hpe_distributed_key_valu.Store.Assoc.{lookup}
use hpe_distributed_key_valu.Store.Defs.{
  KvStore, Report, map_not_found, StorageMode, memory, persistent, is_memory, size_mod, what,
  guarded, get_free_memory,
}

-- `double`: zero, the quotient of two `size_t` as doubles, the multiple by 100, and the text with two
-- digits behind the point.
pub record Decimals : Type 1 where
  pub Double : Type 0
  pub zero_double : Double
  pub quotient : ℕ → ℕ → Double
  pub percent : Double → Double
  pub fixed_2 : Double → Text

-- What Boost tells of a segment beyond its map: its size, and the map's pairs in their order.
pub record Contents (S : Segment) : Type 0 where
  pub get_size : S.Mem → ℕ
  pub entries : S.Mem → List (ℤ × Text)

-- The documented behaviour: the free memory is part of the size, which is a `size_t`, and the
-- iteration meets the pair of each key, as often as `size` says.
pub record IsContents (S : Segment) (B : Contents S) : Type 0 where
  pub free_within : (m : S.Mem) → S.get_free_memory m ≤ B.get_size m
  pub size_fits : (m : S.Mem) → B.get_size m < size_mod
  pub entries_count : (m : S.Mem) → length (B.entries m) ≡ S.size m
  pub entries_found : (k : ℤ) (m : S.Mem) → lookup k (B.entries m) ≡ S.find k m

pub record MemoryStats (Double : Type 0) : Type 0 where
  pub total_size : ℕ
  pub used_memory : ℕ
  pub free_memory : ℕ
  pub usage_percent : Double

-- What `ListAllKeys` prints: the count, and the texts of the pairs.
pub data Listing : Type 0 where
  no_map : Listing
  no_list : Exception → Listing
  all_keys : ℕ → List (ℤ × Text) → Listing
  no_segment : Listing

abbrev pub printed_pairs : List (ℤ × Text) → List (ℤ × Text)
printed_pairs [] = []
printed_pairs ((key, value) ∷ pairs) = (key, c_str value) ∷ printed_pairs pairs

abbrev pub mode_text : StorageMode → Text
mode_text persistent = codes "PERSISTENT"
mode_text memory = codes "MEMORY"

abbrev pair_lines : List (ℤ × Text) → List Text
pair_lines [] = []
pair_lines ((key, value) ∷ pairs) =
    (codes "Key: " ++ (to_string key ++ (codes ", Value: " ++ value))) ∷ pair_lines pairs

unfoldable pub listing_lines : Listing → List Text
listing_lines no_map = codes "Map not found in storage." ∷ []
listing_lines (no_list x) = (codes "Error listing keys: " ++ what x) ∷ []
listing_lines (all_keys count pairs) =
    []
      ∷ codes "========== ALL KEYS IN STORAGE =========="
      ∷ (codes "Total keys: " ++ to_string (pos count))
      ∷ pair_lines pairs
    ++ codes "========================================" ∷ []
listing_lines no_segment = []

module _ (S : Segment) (B : Contents S) where
  abbrev pub listed : S.Mem → Listing
  listed m = all_keys (S.size m) (printed_pairs (B.entries m))

  abbrev pub refused : Report → Listing
  refused map_not_found = no_map
  refused r = no_segment

  unfoldable pub list_all_keys : KvStore S.Mem → Listing
  list_all_keys kv = guarded S kv refused no_list listed

  module _ (F : Decimals) where
    abbrev no_stats : MemoryStats F.Double
    no_stats = record {
      total_size = 0;
      used_memory = 0;
      free_memory = 0;
      usage_percent = F.zero_double;
    }

    abbrev stats_of : S.Mem → MemoryStats F.Double
    stats_of m =
        let total = B.get_size m in
        let free = S.get_free_memory m in
        let used = (total + size_mod - free) % size_mod in
        record {
          total_size = total;
          used_memory = used;
          free_memory = free;
          usage_percent = F.percent (F.quotient used total);
        }

    abbrev stats_or : Option S.Mem → MemoryStats F.Double
    stats_or none = no_stats
    stats_or (some m) = stats_of m

    unfoldable pub get_memory_stats : KvStore S.Mem → MemoryStats F.Double
    get_memory_stats kv =
        if is_memory kv.storage_mode then stats_or kv.memory_storage else stats_or kv.file_storage

    abbrev megabytes : ℕ → Text
    megabytes n = F.fixed_2 (F.quotient n (1024 * 1024)) ++ codes " MB"

    -- `file` is `persistent_file_path`.
    unfoldable pub print_memory_stats : Text → Text → KvStore S.Mem → List Text
    print_memory_stats file operation kv =
        let stats = get_memory_stats kv in
        []
          ∷ (codes "========== MEMORY STATS [" ++ (operation ++ codes "] =========="))
          ∷ (codes "  Storage mode: " ++ mode_text kv.storage_mode)
          ∷ (codes "  Total memory: " ++ megabytes stats.total_size)
          ∷ (codes "  Used memory:  " ++ megabytes stats.used_memory)
          ∷ (codes "  Free memory:  " ++ megabytes stats.free_memory)
          ∷ (codes "  Usage:        " ++ (F.fixed_2 stats.usage_percent ++ codes "%"))
          ∷ (if is_memory kv.storage_mode then [] else (codes "  File path:    " ++ file) ∷ [])
        ++ codes "============================================" ∷ []

    abbrev free_of : Option S.Mem → ℕ
    free_of o = elim o [ none ↦ 0 | some m ↦ S.get_free_memory m ]

    -- The numbers of a store add up, and the free memory is what `GetFreeMemory` gives.
    pub get_memory_stats_lem :
        IsContents S B
        → (kv : KvStore S.Mem)
        → ((get_memory_stats kv).used_memory + (get_memory_stats kv).free_memory
            ≡ (get_memory_stats kv).total_size)
          × ((get_memory_stats kv).free_memory ≡ get_free_memory S kv)
    unfolding get_memory_stats get_free_memory
    get_memory_stats_lem law kv = if_both kv.storage_mode kv.memory_storage kv.file_storage
      where
        AddsUp : MemoryStats F.Double → Option S.Mem → Type 0
        AddsUp stats o =
            (stats.used_memory + stats.free_memory ≡ stats.total_size)
            × (stats.free_memory ≡ free_of o)

        adds_up : (o : Option S.Mem) → AddsUp (stats_or o) o
        adds_up none = (refl, refl)
        adds_up (some m) = (omega (arith, law.free_within m, law.size_fits m), refl)

        if_both :
            (mode : StorageMode) (o p : Option S.Mem)
            → AddsUp
                (if is_memory mode then stats_or o else stats_or p)
                (if is_memory mode then o else p)
        if_both memory o p = adds_up o
        if_both persistent o p = adds_up p
