-- ===== src/Store/Effects.antt =====
-- What the operations of src/KVStore.cpp that write have in common: the effect on the map.
use hpe_distributed_key_valu.Prelude.{
  ◌≡◌, refl, ◌∙◌, Bool, true, false, ◌&&◌, Option, some, arith, if◌then◌else◌, Text, ℤ, ◌==ℤ◌,
  Option-cases, inl, inr, ◌⊎◌,
}
use hpe_distributed_key_valu.Store.Boost.{Exception, Attempt, done, raised, Segment, IsMap}
use hpe_distributed_key_valu.Store.Defs.{
  KvStore, Report, inserted, updated, deleted, failed, map_missing, segment, set_segment, sync,
  is_memory, stored, guarded, operation, past_guard, locked,
}

-- The map pointer of the mode is set, and points into the segment `m`.
pub record IsOpen {M : Type 0} (kv : KvStore M) (m : M) : Type 0 where
  pub pointer : map_missing kv ≡ false
  pub mapped : segment kv ≡ some m

set_segment-IsOpen :
    {M : Type 0} (kv : KvStore M) (m m' : M) → IsOpen kv m → IsOpen (set_segment kv m') m'
set_segment-IsOpen kv m m' o = ground arith

-- The store after an operation is open; its map is the old one, but for the new value at the key
-- where the operation wrote; and then the mutex is as it was.
pub record Effect (S : Segment) (m : S.Mem) (kv : KvStore S.Mem) (wrote : Bool) (key : ℤ)
    (new : Option Text) : Type 0 where
  pub left : S.Mem
  pub is_open : IsOpen kv left
  pub content : (j : ℤ) → S.find j left ≡ (if wrote && key ==ℤ j then new else S.find j m)
  pub mutex : wrote ≡ true → S.lock left ≡ S.lock m

abbrev pub is_inserted : Report → Bool
is_inserted inserted = true
is_inserted _ = false

abbrev pub is_updated : Report → Bool
is_updated updated = true
is_updated _ = false

abbrev pub is_deleted : Report → Bool
is_deleted deleted = true
is_deleted _ = false

-- An operation with the effect `Effect`, that writes only where `P` holds.
abbrev pub Outcome :
    (S : Segment)
    → S.Mem
    → ℤ
    → Option Text
    → (Report → Bool)
    → Type 0
    → KvStore S.Mem × Report
    → Type 0
Outcome S m key new wrote P (kv, r) = Effect S m kv (wrote r) key new × (wrote r ≡ true → P)

Attempt-cases :
    {M : Type 0} (a : Attempt M)
    → ((m : M) × (a ≡ done m)) ⊎ ((x : Exception) × ((m : M) × (a ≡ raised x m)))
Attempt-cases (done m) = inl (m, refl)
Attempt-cases (raised x m) = inr (x, (m, refl))

pub Attempt-done : {M : Type 0} {a b : M} → done a ≡ done b → a ≡ b
Attempt-done d = cc

module _ (S : Segment) (laws : IsMap S) where
  open S use {Mem}

  -- The segment after the `Sync` that the persistent mode makes.
  abbrev synced : KvStore Mem → Mem → Mem
  synced kv m = if is_memory kv.storage_mode then m else S.flush m

  sync-IsOpen : (kv : KvStore Mem) (m : Mem) → IsOpen kv m → IsOpen (sync S kv) (synced kv m)
  unfolding sync
  sync-IsOpen kv m o = ground arith

  find-synced : (kv : KvStore Mem) (m : Mem) (j : ℤ) → S.find j (synced kv m) ≡ S.find j m
  find-synced kv m j = ground (arith, laws.find-flush j m)

  lock-synced : (kv : KvStore Mem) (m : Mem) → S.lock (synced kv m) ≡ S.lock m
  lock-synced kv m = ground (arith, laws.lock-flush m)

  -- A write that went through, stored and synced.
  stored_done :
      (kv : KvStore Mem) (m m' : Mem) (report : Report)
      → IsOpen kv m
      → (n : Mem) × IsOpen (stored S kv (done m') report).0 n
        × ((j : ℤ) → S.find j n ≡ S.find j m')
        × (S.lock n ≡ S.lock m')
  stored_done kv m m' report o = (
    synced (set_segment kv m') m',
    sync-IsOpen (set_segment kv m') m' (set_segment-IsOpen kv m m' o),
    find-synced (set_segment kv m') m',
    lock-synced (set_segment kv m') m',
  )

  pub guarded-open :
      {A : Type 0} (kv : KvStore Mem) (m : Mem) (refuse : Report → A) (throw : Exception → A)
      (body : Mem → A)
      → IsOpen kv m
      → guarded S kv refuse throw body ≡ locked S throw body m (S.lock m)
  guarded-open kv m refuse throw body o =
      λ i. past_guard S refuse throw body (o.pointer i) (o.mapped i)

  unchanged :
      (kv : KvStore Mem) (m : Mem) (key : ℤ) (new : Option Text)
      → IsOpen kv m
      → Effect S m kv false key new
  unchanged kv m key new o = record { left = m; is_open = o; content = λ j. refl; mutex = λ e. cc }

  -- What `stored` does with the outcome of a call on the map.
  wrote_done :
      (kv : KvStore Mem) (m m' : Mem) (report : Report) (key : ℤ) (new : Option Text)
      → IsOpen kv m
      → ((j : ℤ) → S.find j m' ≡ (if key ==ℤ j then new else S.find j m))
      → S.lock m' ≡ S.lock m
      → Effect S m (stored S kv (done m') report).0 true key new
  wrote_done kv m m' report key new o content lock =
      let (n, is_open, same, mutex) = stored_done kv m m' report o in
      record {
        left = n;
        is_open = is_open;
        content = λ j. same j ∙ content j;
        mutex = λ _. mutex ∙ lock;
      }

  wrote_raised :
      (kv : KvStore Mem) (m m' : Mem) (key : ℤ) (new : Option Text)
      → IsOpen kv m
      → ((j : ℤ) → S.find j m' ≡ S.find j m)
      → Effect S m (set_segment kv m') false key new
  wrote_raised kv m m' key new o content = record {
    left = m';
    is_open = set_segment-IsOpen kv m m' o;
    content = content;
    mutex = λ e. cc;
  }

  module _ (key : ℤ) (new : Option Text) (wrote : Report → Bool) (P : Type 0) where
    pub idle :
        (kv : KvStore Mem) (m : Mem) (r : Report)
        → IsOpen kv m
        → wrote r ≡ false
        → Outcome S m key new wrote P (kv, r)
    idle kv m r o h = rw h (unchanged kv m key new o, λ e. cc)

    pub operation-Outcome :
        (kv : KvStore Mem) (m : Mem) (body : Mem → KvStore Mem × Report)
        → IsOpen kv m
        → ((x : Exception) → wrote (failed x) ≡ false)
        → Outcome S m key new wrote P (body m)
        → Outcome S m key new wrote P (operation S kv body)
    operation-Outcome kv m body o quiet result =
        rw (guarded-open kv m _ _ body o) (elim (Option-cases (S.lock m)) [
          | inr (x, e) ↦ rw e (idle kv m (failed x) o (quiet x))
          | inl e ↦ rw e result
        ])

    pub stored-Outcome :
        (kv : KvStore Mem) (m : Mem) (a : Attempt Mem) (report : Report)
        → IsOpen kv m
        → wrote report ≡ true
        → ((x : Exception) → wrote (failed x) ≡ false)
        → P
        → ((m' : Mem)
            → a ≡ done m'
            → (j : ℤ) → S.find j m' ≡ (if key ==ℤ j then new else S.find j m))
        → ((m' : Mem) → a ≡ done m' → S.lock m' ≡ S.lock m)
        → ((m' : Mem) (x : Exception) → a ≡ raised x m' → (j : ℤ) → S.find j m' ≡ S.find j m)
        → Outcome S m key new wrote P (stored S kv a report)
    stored-Outcome kv m a report o yes_ quiet p content mutex same = elim (Attempt-cases a) [
      | inl (m', d) ↦
          rw (d, yes_) (wrote_done kv m m' report key new o (content m' d) (mutex m' d), λ _. p)
      | inr (x, (m', d)) ↦ rw (d, quiet x) (wrote_raised kv m m' key new o (same m' x d), λ e. cc)
    ]
