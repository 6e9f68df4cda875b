-- ===== src/Gossip/Generations.antt =====
-- The generation file of src/GossipMembership.cpp: `generationFilePath`, `loadGeneration`,
-- `saveGeneration`, and the constructor with them.
use native.Mathlib.Nat.{mod-eq_of_lt}
use hpe_distributed_key_valu.Prelude.{
  ℕ, ◌+◌, ◌%◌, ◌^◌, ◌≤◌, ◌<◌, ◌≡◌, ◌≢◌, refl, sym, ap, ◌∙◌, Bool, true, ◌++◌, List, Option, none,
  some, arith, if◌then◌else◌, Text, codes, text_eq, text_eq_refl, ℤ, pos, ==ℤ_refl,
}
use hpe_distributed_key_valu.Decimal.{to_string}
use hpe_distributed_key_valu.Decimal.Parse.{read_u32}
use hpe_distributed_key_valu.Decimal.RoundTrip.{read_u32-to_string}
use hpe_distributed_key_valu.Gossip.State.{GossipMembership, find, records, severity, alive}
use hpe_distributed_key_valu.Gossip.Merge.{merge_view}
use hpe_distributed_key_valu.Gossip.Rounds.{construct}
use hpe_distributed_key_valu.Gossip.Versions.{Version, known, told, join, merge_view-told}
use hpe_distributed_key_valu.Gossip.Shape.{IsTable}
use hpe_distributed_key_valu.Gossip.Agreement.{other_id}

-- The working directory: the text of each file, and whether it can be opened for writing.
pub record Files : Type 0 where
  pub contents : Text → Option Text
  pub writable : Text → Bool

unfoldable pub generation_file_path : ℤ → Text
generation_file_path node_id = codes "generation_" ++ (to_string node_id ++ codes ".dat")

abbrev read_or_zero : Option Text → ℕ
read_or_zero none = 0
read_or_zero (some text) = read_u32 text

unfoldable pub load_generation : ℤ → Files → ℕ
load_generation self files = read_or_zero (files.contents (generation_file_path self))

abbrev written : Text → Text → Files → Files
written path text files = record files {
  contents = λ other. if text_eq other path then some text else files.contents other;
}

unfoldable pub save_generation : ℤ → ℕ → Files → Files
save_generation self gen files =
    let path = generation_file_path self in
    if files.writable path then written path (to_string (pos gen)) files else files

-- The constructor, on the working directory.
unfoldable pub create : ℤ → Text → List Text → ℤ → ℤ → Files → ℕ → GossipMembership × Files
create self endpoint seeds suspect_ms dead_ms files now =
    let g = construct self endpoint seeds suspect_ms dead_ms (load_generation self files) now in
    (g, save_generation self g.generation files)

-- What is saved is loaded again.
load-save_generation :
    (self : ℤ) (gen : ℕ) (files : Files)
    → files.writable (generation_file_path self) ≡ true
    → gen < 2 ^ 32
    → load_generation self (save_generation self gen files) ≡ gen
unfolding load_generation save_generation
load-save_generation self gen files w lt =
    rw (w, text_eq_refl (generation_file_path self)) (read_u32-to_string gen lt)

module _ (self : ℤ) (endpoint : Text) (seeds : List Text) (suspect_ms dead_ms : ℤ) where
  create-generation :
      (files : Files) (now : ℕ)
      → (create self endpoint seeds suspect_ms dead_ms files now).0.generation
        ≡ (load_generation self files + 1) % 2 ^ 32
  unfolding create construct
  create-generation files now = refl

  create-load :
      (files : Files) (now : ℕ)
      → files.writable (generation_file_path self) ≡ true
      → load_generation self files + 1 < 2 ^ 32
      → load_generation self (create self endpoint seeds suspect_ms dead_ms files now).1
        ≡ load_generation self files + 1
  unfolding create construct
  create-load files now w lt = load-save_generation self _ files w (omega arith) ∙ mod-eq_of_lt lt

  create-view :
      (files : Files) (now : ℕ) (p : GossipMembership) (v : Version) (clock : ℕ → ℕ)
      → p.self_node_id ≢ self
      → known self p.member_table ≡ some v
      → v.generation < (load_generation self files + 1) % 2 ^ 32
      → known self
          (merge_view clock
            (records (create self endpoint seeds suspect_ms dead_ms files now).0.member_table)
            p).0.member_table
        ≡ some (record {
          generation = (load_generation self files + 1) % 2 ^ 32;
          heartbeat = 0;
          severity = 0;
        })
  unfolding create construct told join
  create-view files now p v clock other k older =
      merge_view-told clock _ p self
      ∙ rw (other_id self p.self_node_id (λ e. other (sym e)), ==ℤ_refl self, k)
          (ground (arith, older))

  pub create-known :
      (files : Files) (now : ℕ)
      → known self (create self endpoint seeds suspect_ms dead_ms files now).0.member_table
        ≡ some (record {
          generation = (load_generation self files + 1) % 2 ^ 32;
          heartbeat = 0;
          severity = 0;
        })
  unfolding create construct find
  create-known files now = rw (==ℤ_refl self) refl

  pub create-unknown :
      (files : Files) (now : ℕ) (id : ℤ)
      → id ≢ self
      → known id (create self endpoint seeds suspect_ms dead_ms files now).0.member_table ≡ none
  unfolding create construct find
  create-unknown files now id ne = rw (other_id self id (λ e. ne (sym e))) refl

  pub create-IsTable :
      (files : Files) (now : ℕ)
      → IsTable (create self endpoint seeds suspect_ms dead_ms files now).0.member_table
  unfolding create construct find
  create-IsTable files now = (refl, (refl, tt))

  pub create_self :
      (files : Files) (now : ℕ)
      → (create self endpoint seeds suspect_ms dead_ms files now).0.self_node_id ≡ self
  unfolding create construct
  create_self files now = refl

-- A node whose generation file can be written is made twice, the second time from the file that the
-- first left. If another node knows of the first at most its generation, with any heartbeat and
-- status, and merges the view of the second, then it knows the second as alive, with its heartbeat 0
-- and a generation that is one higher, if the numbers stay below 2^32.
pub restart_is_taken :
    (self : ℤ) (endpoint : Text) (seeds : List Text) (suspect_ms dead_ms : ℤ) (files : Files)
    (now now' : ℕ) (p : GossipMembership) (v : Version) (clock : ℕ → ℕ)
    → files.writable (generation_file_path self) ≡ true
    → load_generation self files + 2 < 2 ^ 32
    → p.self_node_id ≢ self
    → known self p.member_table ≡ some v
    → v.generation ≤ (create self endpoint seeds suspect_ms dead_ms files now).0.generation
    → known self
        (merge_view clock
          (records
            (create self endpoint seeds suspect_ms dead_ms
              (create self endpoint seeds suspect_ms dead_ms files now).1
              now').0.member_table)
          p).0.member_table
      ≡ some (record {
        generation = (create self endpoint seeds suspect_ms dead_ms files now).0.generation + 1;
        heartbeat = 0;
        severity = severity alive;
      })
restart_is_taken self endpoint seeds suspect_ms dead_ms files now now' p v clock w lt other k le =
    create-view self endpoint seeds suspect_ms dead_ms _ now' p v clock other k
      (omega (arith, le, next_generation, first, lt))
    ∙ ap (λ n. some (record { generation = n; heartbeat = 0; severity = 0 }))
        (omega (arith, next_generation, first, lt))
  where
    first :
        (create self endpoint seeds suspect_ms dead_ms files now).0.generation
        ≡ (load_generation self files + 1) % 2 ^ 32
    first = create-generation self endpoint seeds suspect_ms dead_ms files now

    next_generation :
        load_generation self (create self endpoint seeds suspect_ms dead_ms files now).1
        ≡ load_generation self files + 1
    next_generation =
        create-load self endpoint seeds suspect_ms dead_ms files now w (omega (arith, lt))
