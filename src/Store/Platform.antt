-- ===== src/Store/Platform.antt =====
-- What src/KVStore.cpp uses of Boost.Interprocess and the file system to make and remove its storage:
-- segments and files by name, the map object in a segment, and named mutexes.
use hpe_distributed_key_valu.Prelude.{
  ℕ, ◌≡◌, refl, ◌⊎◌, inl, inr, ◌≢◌, Bool, true, false, List, none, Text, ℤ,
}
use hpe_distributed_key_valu.Store.Boost.{Segment}
use hpe_distributed_key_valu.Store.Defs.{StorageMode, memory}

-- `interprocess_exception`, or another exception.
pub data Trouble : Type 0 where
  interprocess foreign : Text → Trouble

pub data Result (A : Type 0) : Type 0 where
  ok : A → Result A
  throw : Trouble → Result A

pub Result-cases :
    {A : Type 0} (r : Result A) → ((x : Trouble) × (r ≡ throw x)) ⊎ ((a : A) × (r ≡ ok a))
Result-cases (throw x) = inl (x, refl)
Result-cases (ok a) = inr (a, refl)

-- `World` is what lies under the names. A segment of the memory mode is a shared memory object, one
-- of the persistent mode a mapped file. The process has a segment that it opened as a value of
-- `Mem`; `commit` puts what it wrote under the segment's name, where that name is still there.
pub record Platform (S : Segment) : Type 1 where
  pub World : Type 0
  pub open_only : StorageMode → Text → World → Result S.Mem
  pub create_only : StorageMode → Text → ℕ → World → Result (S.Mem × World)
  pub commit : StorageMode → Text → S.Mem → World → World
  pub remove_shared_memory : Text → World → World
  pub exists : Text → World → Bool
  pub remove_file : Text → World → Result World
  pub regular_files : World → Result (List Text)
  pub remove_mutex : Text → World → World
  pub open_or_create_mutex : Text → World → Result World
  pub has_map : S.Mem → Bool
  pub construct_map : S.Mem → Result S.Mem
  pub destroy_map : S.Mem → S.Mem

-- The documented behaviour that the theorems rely on.
pub record IsPlatform (S : Segment) (P : Platform S) : Type 0 where
  pub open-commit :
      (mode : StorageMode) (name : Text) (m m' : S.Mem) (w : P.World)
      → P.open_only mode name w ≡ ok m
      → P.open_only mode name (P.commit mode name m' w) ≡ ok m'
  pub open-remove_mutex :
      (mode : StorageMode) (name mutex : Text) (w : P.World)
      → P.open_only mode name (P.remove_mutex mutex w) ≡ P.open_only mode name w
  pub exists-commit :
      (file name : Text) (mode : StorageMode) (m : S.Mem) (w : P.World)
      → P.exists file (P.commit mode name m w) ≡ P.exists file w
  pub exists-remove_mutex :
      (file mutex : Text) (w : P.World) → P.exists file (P.remove_mutex mutex w) ≡ P.exists file w
  pub open-remove_shared_memory :
      (name : Text) (m : S.Mem) (w : P.World)
      → P.open_only memory name (P.remove_shared_memory name w) ≢ ok m
  pub open-remove_file :
      (name file : Text) (w w' : P.World)
      → P.remove_file file w ≡ ok w'
      → P.open_only memory name w' ≡ P.open_only memory name w
  pub has_map-destroy_map : (m : S.Mem) → P.has_map (P.destroy_map m) ≡ false
  pub find-construct_map : (j : ℤ) (m m' : S.Mem) → P.construct_map m ≡ ok m' → S.find j m' ≡ none
  pub open-create_only :
      (mode : StorageMode) (name : Text) (size : ℕ) (m : S.Mem) (w w' : P.World)
      → P.create_only mode name size w ≡ ok (m, w')
      → P.open_only mode name w' ≡ ok m
  pub has_map-construct_map : (m m' : S.Mem) → P.construct_map m ≡ ok m' → P.has_map m' ≡ true
  pub open-open_or_create_mutex :
      (mode : StorageMode) (name mutex : Text) (w w' : P.World)
      → P.open_or_create_mutex mutex w ≡ ok w'
      → P.open_only mode name w' ≡ P.open_only mode name w
