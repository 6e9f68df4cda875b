-- ===== src/Store/Refinement.antt =====
-- Runs of `Insert`, `Update` and `Delete` of src/KVStore.cpp against an abstract map from keys to texts.
use mathlib.Core.Path.{subst}
use hpe_distributed_key_valu.Prelude.{
  ◌≡◌, ◌≢◌, refl, sym, ap, ◌∙◌, Bool, true, false, List, [], ◌∷◌, Option, none, some, if◌then◌else◌,
  Text, c_str, ℤ, ◌==ℤ◌,
}
use hpe_distributed_key_valu.Store.Boost.{Segment, IsMap}
use hpe_distributed_key_valu.Store.Defs.{KvStore, Report, insert, update, delete}
use hpe_distributed_key_valu.Store.Effects.{
  IsOpen, Effect, Outcome, is_inserted, is_updated, is_deleted,
}
use hpe_distributed_key_valu.Store.Writes.{insert_lem, update_lem, delete_lem}

-- A request to write.
pub data Write : Type 0 where
  to_insert to_update : ℤ → Text → Write
  to_delete : ℤ → Write

abbrev pub target : Write → ℤ
target (to_insert key value) = key
target (to_update key value) = key
target (to_delete key) = key

abbrev pub new_value : Write → Option Text
new_value (to_insert key value) = some (c_str value)
new_value (to_update key value) = some (c_str value)
new_value (to_delete key) = none

abbrev pub wrote : Write → Report → Bool
wrote (to_insert key value) = is_inserted
wrote (to_update key value) = is_updated
wrote (to_delete key) = is_deleted

-- The abstract map.
abbrev pub AbstractMap : Type 0
AbstractMap = ℤ → Option Text

-- A free key for an insert, and a key that is there for the others.
abbrev pub Allowed : Write → AbstractMap → Type 0
Allowed (to_insert key value) m = m key ≡ none
Allowed (to_update key value) m = m key ≢ none
Allowed (to_delete key) m = m key ≢ none

-- A write that reports success was allowed and has changed the map at its key alone; one that does not
-- has changed nothing.
pub data Step (m : AbstractMap) (op : Write) (r : Report) (m' : AbstractMap) : Type 0 where
  writes :
      wrote op r ≡ true
      → Allowed op m
      → ((j : ℤ) → m' j ≡ (if target op ==ℤ j then new_value op else m j))
      → Step m op r m'
  refuses : wrote op r ≡ false → ((j : ℤ) → m' j ≡ m j) → Step m op r m'

pub data Runs : AbstractMap → List Write → List Report → AbstractMap → Type 0 where
  rest : {m : AbstractMap} → Runs m [] [] m
  step :
      {m m' m'' : AbstractMap} {op : Write} {r : Report} {ops : List Write} {rs : List Report}
      → Step m op r m'
      → Runs m' ops rs m''
      → Runs m (op ∷ ops) (r ∷ rs) m''

module _ (S : Segment) where
  open S use {Mem}

  abbrev pub contents : Mem → AbstractMap
  contents m j = S.find j m

  abbrev pub write : Write → KvStore Mem → KvStore Mem × Report
  write (to_insert key value) kv = insert S key value kv
  write (to_update key value) kv = update S key value kv
  write (to_delete key) kv = delete S key kv

  -- The requests one after the other, with what each reports.
  unfoldable pub write_all : List Write → KvStore Mem → KvStore Mem × List Report
  write_all [] kv = (kv, [])
  write_all (op ∷ ops) kv =
      let (kv', r) = write op kv in let (kv'', rs) = write_all ops kv' in (kv'', r ∷ rs)

  module _ (laws : IsMap S) where
    write-Outcome :
        (op : Write) (kv : KvStore Mem) (m : Mem)
        → IsOpen kv m
        → Outcome S m (target op) (new_value op) (wrote op) (Allowed op (contents m)) (write op kv)
    write-Outcome (to_insert key value) = insert_lem S laws key value
    write-Outcome (to_update key value) = update_lem S laws key value
    write-Outcome (to_delete key) = delete_lem S laws key

    outcome-Step :
        (op : Write) (r : Report) (m : Mem) (kv' : KvStore Mem) (b : Bool)
        → wrote op r ≡ b
        → (e : Effect S m kv' b (target op) (new_value op)) → (b ≡ true → Allowed op (contents m))
        → Step (contents m) op r (contents e.left)
    outcome-Step op r m kv' true w e allowed = writes w (allowed refl) e.content
    outcome-Step op r m kv' false w e allowed = refuses w e.content

    -- Every run of inserts, updates and deletes on an open store is a run of the abstract map with the
    -- same reports, from the contents before to the contents after, and the store stays open.
    pub write_all-Runs :
        (ops : List Write) (kv : KvStore Mem) (m : Mem)
        → IsOpen kv m
        → (left : Mem) × IsOpen (write_all ops kv).0 left
          × Runs (contents m) ops (write_all ops kv).1 (contents left)
    unfolding write_all
    write_all-Runs [] kv m o = (m, o, rest)
    write_all-Runs (op ∷ ops) kv m o =
        let out = write-Outcome op kv m o in
        let later = write_all-Runs ops (write op kv).0 out.0.left out.0.is_open in
        (
          later.0,
          later.1,
          step (outcome-Step op (write op kv).1 m (write op kv).0 _ refl out.0 out.1) later.2,
        )

-- A step from the same map with the same report leaves the same map.
Step-agree :
    (op : Write) (r : Report) (m n m' n' : AbstractMap)
    → ((j : ℤ) → m j ≡ n j)
    → Step m op r m'
    → Step n op r n'
    → (j : ℤ) → m' j ≡ n' j
Step-agree op r m n m' n' same (writes w a f) (writes v b g) j =
    f j
    ∙ (ap (λ (t : Option Text). if target op ==ℤ j then new_value op else t) (same j) ∙ sym (g j))
Step-agree op r m n m' n' same (refuses w f) (refuses v g) j = f j ∙ (same j ∙ sym (g j))
Step-agree op r m n m' n' same (writes w a f) (refuses v g) j = absurd (cc (w, v))
Step-agree op r m n m' n' same (refuses w f) (writes v b g) j = absurd (cc (w, v))

Runs-agree :
    (ops : List Write) (rs : List Report) {m n m' n' : AbstractMap}
    → ((j : ℤ) → m j ≡ n j)
    → Runs m ops rs m'
    → Runs n ops rs n'
    → (j : ℤ) → m' j ≡ n' j
Runs-agree [] [] same rest rest = same
Runs-agree [] (r ∷ rs) same runs _ = elim runs [ ]
Runs-agree (op ∷ ops) [] same runs _ = elim runs [ ]
Runs-agree (op ∷ ops) (r ∷ rs) same (step a more) (step b more2) =
    Runs-agree ops rs (Step-agree op r _ _ _ _ same a b) more more2

module _ (S T : Segment) (S_laws : IsMap S) (T_laws : IsMap T) where
  -- Two open stores, of whatever modes and over whatever segments, that hold the same pairs and answer
  -- the same requests to write with the same reports hold the same pairs afterwards.
  stores_agree :
      (ops : List Write) (a : KvStore S.Mem) (b : KvStore T.Mem) (m : S.Mem) (n : T.Mem)
      (o : IsOpen a m) (p : IsOpen b n)
      → ((j : ℤ) → S.find j m ≡ T.find j n)
      → (write_all S ops a).1 ≡ (write_all T ops b).1
      → (j : ℤ)
      → S.find j (write_all-Runs S S_laws ops a m o).0
        ≡ T.find j (write_all-Runs T T_laws ops b n p).0
  stores_agree ops a b m n o p same reports =
      Runs-agree ops (write_all S ops a).1 same (write_all-Runs S S_laws ops a m o).2 (
        subst (λ rs. Runs (contents T n) ops rs (contents T (write_all-Runs T T_laws ops b n p).0))
          (sym reports) (write_all-Runs T T_laws ops b n p).2)
