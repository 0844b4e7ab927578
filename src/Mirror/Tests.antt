-- ===== src/Mirror/Tests.antt =====
-- ssd_tier/mirror_manager.cpp at two short files.
use desiree_ia.Prelude.{true, none, some, [], ◌∷◌, ◌≡◌, refl, arith, equal, codes, if◌then◌else◌}
use desiree_ia.Mirror.Files.{
  resize, read_at, Access, open_read, seeks, read_file, open_write, write_file,
}
use desiree_ia.Mirror.Manager.{
  Manager, no_stats, enabled, read, verify, write, write_primary, repair,
}
use desiree_ia.Mirror.Written.{read-write}
use desiree_ia.Mirror.Repaired.{verify-repair}
use desiree_ia.Mirror.Fallback.{IsLost, read_after_fallback}

abbrev access : Access
access = record { readable = λ path. true; writable = λ path. true; seekable = λ offset. true }

abbrev manager : Manager
manager = record {
  config = record {
    primary_path = codes "a";
    mirror_path = codes "b";
    verify_on_read = true;
    auto_repair = true;
  };
  stats = no_stats;
  files = λ path. if equal path (codes "a") then some (1 ∷ 2 ∷ 3 ∷ 4 ∷ []) else some (1 ∷ 9 ∷ []);
}

abbrev lost_manager : Manager
lost_manager = record manager {
  files = λ path. if equal path (codes "a") then none else some (1 ∷ 2 ∷ 3 ∷ 4 ∷ []);
}

writes : (write access manager 3 (7 ∷ 8 ∷ [])).1 ≡ true
unfolding write write_primary write_file seeks open_write open_read equal
writes = refl

repairs : (repair access manager 1 3).1 ≡ true
unfolding repair enabled seeks read_file write_file open_write open_read equal
repairs = refl

read-write_example :
    (read access (write access manager 3 (7 ∷ 8 ∷ [])).0 3 2 (5 ∷ [])).1 ≡ some (7 ∷ 8 ∷ [])
read-write_example = read-write access manager 3 (7 ∷ 8 ∷ []) (5 ∷ []) refl writes

verify-repair_example : (verify access (repair access manager 1 3).0 1 3).1 ≡ true
verify-repair_example = verify-repair access manager 1 3 refl repairs

is_lost : IsLost access lost_manager (1 ∷ 2 ∷ 3 ∷ 4 ∷ [])
unfolding equal
is_lost = record {
  primary = refl;
  mirror = refl;
  reads_primary = refl;
  writes_primary = refl;
  reads_mirror = refl;
  missing = refl;
  kept = refl;
  repairs = refl;
}

read_after_fallback_example :
    ((read access lost_manager 2 1 []).1 ≡ some (read_at (1 ∷ 2 ∷ 3 ∷ 4 ∷ []) 2 1 []))
    × ((read access (read access lost_manager 2 1 []).0 0 2 []).1 ≡ some (resize 2 []))
read_after_fallback_example =
    read_after_fallback access lost_manager (1 ∷ 2 ∷ 3 ∷ 4 ∷ []) 2 1 [] [] is_lost
      (unfold seeks in refl) (unfold seeks in refl) (omega arith)
