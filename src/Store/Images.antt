-- ===== src/Store/Images.antt =====
-- A platform for the witnesses: shared memory objects and files by name, each an association list
-- that may or may not hold the map, and mutexes that are always free. It meets the laws of
-- Store/Platform, so the theorems on the constructor and the destructor of src/KVStore.cpp have
-- instances.
use hpe_distributed_key_valu.Prelude.{
  ℕ, ◌≡◌, ◌≢◌, refl, sym, ap, ◌∙◌, Bool, true, false, List, [], ◌∷◌, Option, none, some,
  if◌then◌else◌, length, Text, codes, text_eq, text_eq_refl, ℤ,
}
use hpe_distributed_key_valu.Store.Boost.{done, Segment, IsMap}
use hpe_distributed_key_valu.Store.Defs.{StorageMode, memory, persistent}
use hpe_distributed_key_valu.Store.Assoc.{lookup, remove, lookup-cons, lookup-remove}
use hpe_distributed_key_valu.Store.Platform.{interprocess, Result, ok, throw, Platform, IsPlatform}

pub record Image : Type 0 where
  pub mapped : Bool
  pub pairs : List (ℤ × Text)

abbrev pub put : ℤ → Text → Image → Image
put k v m = record m { pairs = (k, v) ∷ remove k m.pairs }

abbrev pub image_segment : Segment
image_segment = record {
  Mem = Image;
  lock = λ m. none;
  find = λ k m. lookup k m.pairs;
  insert = λ k v m. done (put k v m);
  assign = λ k v m. done (put k v m);
  erase = λ k m. record m { pairs = remove k m.pairs };
  size = λ m. length m.pairs;
  flush = λ m. m;
  get_free_memory = λ m. 1000;
}

put_done : {M : Type 0} {a b : M} → done a ≡ done b → b ≡ a
put_done d = cc

pub image-IsMap : IsMap image_segment
image-IsMap = record {
  find-insert = λ k j v m m' e d. rw (put_done d) (lookup-cons k j v m.pairs);
  find-insert_raised = λ k j v m m' x d. cc;
  find-assign = λ k j v old m m' e d. rw (put_done d) (lookup-cons k j v m.pairs);
  find-assign_raised = λ k j v m m' x d. cc;
  find-erase = λ k j m. lookup-remove k j m.pairs;
  find-flush = λ j m. refl;
  lock-insert = λ k v m m' d. refl;
  lock-assign = λ k v m m' d. refl;
  lock-erase = λ k m. refl;
  lock-flush = λ m. refl;
}

pub record Disk : Type 0 where
  pub object : Text → Option Image
  pub file : Text → Option Image
  pub listing : List Text

-- A segment that is not there is not written, and one that is there is not created.
abbrev pub written : Text → Image → (Text → Option Image) → Text → Option Image
written name m at n = if text_eq name n then elim (at n) [ none ↦ none | some _ ↦ some m ] else at n

abbrev pub dropped : Text → (Text → Option Image) → Text → Option Image
dropped name at n = if text_eq name n then none else at n

abbrev pub added : Text → Image → (Text → Option Image) → Text → Option Image
added name m at n = if text_eq name n then some m else at n

abbrev pub opened : Option Image → Result Image
opened none = throw (interprocess (codes "No such file or directory"))
opened (some m) = ok m

abbrev pub fresh_image : Image
fresh_image = record { mapped = false; pairs = [] }

abbrev pub created : Option Image → Disk → Result (Image × Disk)
created none w = ok (fresh_image, w)
created (some m) w = throw (interprocess (codes "File exists"))

abbrev pub present : Option Image → Bool
present none = false
present (some m) = true

abbrev pub disk_platform : Platform image_segment
disk_platform = record {
  World = Disk;
  open_only =
      λ mode name w. opened (elim mode [ memory ↦ w.object name | persistent ↦ w.file name ]);
  create_only = λ mode name size w. elim mode [
    | memory ↦ created (w.object name) (record w { object = added name fresh_image w.object })
    | persistent ↦ created (w.file name) (record w { file = added name fresh_image w.file })
  ];
  commit = λ mode name m w. elim mode [
    | memory ↦ record w { object = written name m w.object }
    | persistent ↦ record w { file = written name m w.file }
  ];
  remove_shared_memory = λ name w. record w { object = dropped name w.object };
  exists = λ name w. present (w.file name);
  remove_file = λ name w. ok (record w { file = dropped name w.file });
  regular_files = λ w. ok w.listing;
  remove_mutex = λ name w. w;
  open_or_create_mutex = λ name w. ok w;
  has_map = λ m. m.mapped;
  construct_map = λ m. ok (record { mapped = true; pairs = [] });
  destroy_map = λ m. record { mapped = false; pairs = [] };
}

opened-written :
    (name : Text) (m m' : Image) (at : Text → Option Image)
    → opened (at name) ≡ ok m
    → opened (written name m' at name) ≡ ok m'
opened-written name m m' at h = rw (text_eq_refl name) (by_image (at name) h)
  where
    by_image :
        (o : Option Image)
        → opened o ≡ ok m
        → opened (elim o [ none ↦ none | some _ ↦ some m' ]) ≡ ok m'
    by_image none h = absurd (cc)
    by_image (some i) h = refl

present-written :
    (file name : Text) (m : Image) (at : Text → Option Image)
    → present (written name m at file) ≡ present (at file)
present-written file name m at = by_cases (text_eq name file) (at file)
  where
    by_cases :
        (b : Bool) (o : Option Image)
        → present (if b then elim o [ none ↦ none | some _ ↦ some m ] else o) ≡ present o
    by_cases false o = refl
    by_cases true none = refl
    by_cases true (some i) = refl

commit_opens :
    (mode : StorageMode) (name : Text) (m m' : Image) (w : Disk)
    → disk_platform.open_only mode name w ≡ ok m
    → disk_platform.open_only mode name (disk_platform.commit mode name m' w) ≡ ok m'
commit_opens memory name m m' w h = opened-written name m m' w.object h
commit_opens persistent name m m' w h = opened-written name m m' w.file h

commit_exists :
    (file name : Text) (mode : StorageMode) (m : Image) (w : Disk)
    → disk_platform.exists file (disk_platform.commit mode name m w) ≡ disk_platform.exists file w
commit_exists file name memory m w = refl
commit_exists file name persistent m w = present-written file name m w.file

dropped_opens :
    (name : Text) (m : Image) (at : Text → Option Image) → opened (dropped name at name) ≢ ok m
dropped_opens name m at h = by_name (text_eq name name) (text_eq_refl name) (at name) h
  where
    by_name : (b : Bool) → b ≡ true → (o : Option Image) → opened (if b then none else o) ≢ ok m
    by_name true e o h = absurd (cc)
    by_name false e o h = absurd (cc)

made : {A : Type 0} {a b : A} → ok a ≡ ok b → b ≡ a
made h = cc

remove_opens :
    (name file : Text) (w w' : Disk)
    → disk_platform.remove_file file w ≡ ok w'
    → disk_platform.open_only memory name w' ≡ disk_platform.open_only memory name w
remove_opens name file w w' h = rw (made h) refl

empty_finds :
    (j : ℤ) (m m' : Image) → disk_platform.construct_map m ≡ ok m' → image_segment.find j m' ≡ none
unfolding lookup
empty_finds j m m' h = rw (made h) refl

opened-created :
    (name : Text) (m : Image) (o : Option Image) (at : Text → Option Image) (w w' : Disk)
    → created o w ≡ ok (m, w')
    → (fresh_image ≡ m) × (w ≡ w')
opened-created name m none at w w' h = (cc, cc)
opened-created name m (some i) at w w' h = absurd (cc)

opened-added :
    (name : Text) (m : Image) (at : Text → Option Image) → opened (added name m at name) ≡ ok m
opened-added name m at = rw (text_eq_refl name) refl

create_opens :
    (mode : StorageMode) (name : Text) (size : ℕ) (m : Image) (w w' : Disk)
    → disk_platform.create_only mode name size w ≡ ok (m, w')
    → disk_platform.open_only mode name w' ≡ ok m
create_opens memory name size m w w' h =
    ap (λ (v : Disk). opened (v.object name))
      (sym (opened-created name m (w.object name) w.object _ w' h).1)
    ∙ (opened-added name fresh_image w.object
        ∙ ap ok (opened-created name m (w.object name) w.object _ w' h).0)
create_opens persistent name size m w w' h =
    ap (λ (v : Disk). opened (v.file name))
      (sym (opened-created name m (w.file name) w.file _ w' h).1)
    ∙ (opened-added name fresh_image w.file
        ∙ ap ok (opened-created name m (w.file name) w.file _ w' h).0)

mutex_opens :
    (mode : StorageMode) (name mutex : Text) (w w' : Disk)
    → disk_platform.open_or_create_mutex mutex w ≡ ok w'
    → disk_platform.open_only mode name w' ≡ disk_platform.open_only mode name w
mutex_opens mode name mutex w w' h = ap (disk_platform.open_only mode name) (made h)

pub disk-IsPlatform : IsPlatform image_segment disk_platform
disk-IsPlatform = record {
  open-commit = commit_opens;
  open-remove_mutex = λ mode name mutex w. refl;
  exists-commit = commit_exists;
  exists-remove_mutex = λ file mutex w. refl;
  open-remove_shared_memory = λ name m w. dropped_opens name m w.object;
  open-remove_file = remove_opens;
  has_map-destroy_map = λ m. refl;
  find-construct_map = empty_finds;
  open-create_only = create_opens;
  has_map-construct_map = λ m m' h. rw (made h) refl;
  open-open_or_create_mutex = mutex_opens;
}
