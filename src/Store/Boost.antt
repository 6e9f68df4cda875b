-- ===== src/Store/Boost.antt =====
-- What src/KVStore.cpp uses of Boost.Interprocess and boost::unordered_map: a segment that holds the
-- map "SharedMap", guarded by a named mutex.
use hpe_distributed_key_valu.Prelude.{ℕ, ◌≡◌, Option, none, some, if◌then◌else◌, Text, ℤ, ◌==ℤ◌}

-- The exceptions that the handlers tell apart, with the text of `what()`.
pub data Exception : Type 0 where
  bad_alloc : Text → Exception
  other : Text → Exception

-- What a call that may throw leaves behind.
pub data Attempt (M : Type 0) : Type 0 where
  done : M → Attempt M
  raised : Exception → M → Attempt M

-- `lock` opens and takes the named mutex; it gives the exception where that fails.
pub record Segment : Type 1 where
  pub Mem : Type 0
  pub lock : Mem → Option Exception
  pub find : ℤ → Mem → Option Text
  pub insert : ℤ → Text → Mem → Attempt Mem
  pub assign : ℤ → Text → Mem → Attempt Mem
  pub erase : ℤ → Mem → Mem
  pub size : Mem → ℕ
  pub flush : Mem → Mem
  pub get_free_memory : Mem → ℕ

-- The documented effect of these calls: a map from keys to values, the strong guarantee when an
-- allocation fails, a flush that writes and changes nothing, and a mutex that the map's operations
-- do not touch.
pub record IsMap (S : Segment) : Type 0 where
  pub find-insert :
      (k j : ℤ) (v : Text) (m m' : S.Mem)
      → S.find k m ≡ none
      → S.insert k v m ≡ done m'
      → S.find j m' ≡ (if k ==ℤ j then some v else S.find j m)
  pub find-insert_raised :
      (k j : ℤ) (v : Text) (m m' : S.Mem) (x : Exception)
      → S.insert k v m ≡ raised x m'
      → S.find j m' ≡ S.find j m
  pub find-assign :
      (k j : ℤ) (v old : Text) (m m' : S.Mem)
      → S.find k m ≡ some old
      → S.assign k v m ≡ done m'
      → S.find j m' ≡ (if k ==ℤ j then some v else S.find j m)
  pub find-assign_raised :
      (k j : ℤ) (v : Text) (m m' : S.Mem) (x : Exception)
      → S.assign k v m ≡ raised x m'
      → S.find j m' ≡ S.find j m
  pub find-erase :
      (k j : ℤ) (m : S.Mem) → S.find j (S.erase k m) ≡ (if k ==ℤ j then none else S.find j m)
  pub find-flush : (j : ℤ) (m : S.Mem) → S.find j (S.flush m) ≡ S.find j m
  pub lock-insert :
      (k : ℤ) (v : Text) (m m' : S.Mem) → S.insert k v m ≡ done m' → S.lock m' ≡ S.lock m
  pub lock-assign :
      (k : ℤ) (v : Text) (m m' : S.Mem) → S.assign k v m ≡ done m' → S.lock m' ≡ S.lock m
  pub lock-erase : (k : ℤ) (m : S.Mem) → S.lock (S.erase k m) ≡ S.lock m
  pub lock-flush : (m : S.Mem) → S.lock (S.flush m) ≡ S.lock m
