-- ===== src/Mirror/Manager.antt =====
-- ssd_tier/mirror_manager.cpp: the methods of `MirrorManager`.
use desiree_ia.Prelude.{
  ℕ, ◌+◌, ◌%◌, ◌^◌, Bool, true, false, not, ◌&&◌, Option, none, some, [], is_empty, equal,
  if◌then◌else◌, Bytes,
}
use desiree_ia.Mirror.Files.{Files, Access, read_file, write_file, left_by}

-- `MirrorConfig`, the fields that are read.
pub record Config : Type 0 where
  pub primary_path : Bytes
  pub mirror_path : Bytes
  pub verify_on_read : Bool
  pub auto_repair : Bool

pub record Stats : Type 0 where
  pub reads_primary : ℕ
  pub reads_mirror : ℕ
  pub writes_primary : ℕ
  pub writes_mirror : ℕ
  pub syncs : ℕ
  pub repairs : ℕ
  pub verify_errors : ℕ

abbrev pub no_stats : Stats
no_stats = record {
  reads_primary = 0;
  reads_mirror = 0;
  writes_primary = 0;
  writes_mirror = 0;
  syncs = 0;
  repairs = 0;
  verify_errors = 0;
}

-- `Impl`, and the files.
pub record Manager : Type 0 where
  pub config : Config
  pub stats : Stats
  pub files : Files

abbrev pub inc : ℕ → ℕ
inc n = (n + 1) % 2 ^ 64

unfoldable pub enabled : Config → Bool
enabled c = not (is_empty c.primary_path) && not (is_empty c.mirror_path)

abbrev pub or_else : Files → Option Files → Files
or_else files none = files
or_else files (some files') = files'

module _ (access : Access) where
  -- `write_file` with its result thrown away, and the count of repairs.
  unfoldable pub repair_file : Manager → Bytes → ℕ → Bytes → Manager
  unfolding write_file left_by
  repair_file m path offset ds = record m {
    files = or_else (left_by access m.files path) (write_file access m.files path offset ds);
    stats = record m.stats { repairs = inc m.stats.repairs };
  }

  unfoldable pub check_mirror : Manager → ℕ → ℕ → Bytes → Manager
  unfolding read_file enabled repair_file equal
  check_mirror m offset size out =
      if m.config.verify_on_read && enabled m.config
      then elim (read_file access m.files m.config.mirror_path offset size []) [
        | none ↦ m
        | some other ↦
            if equal out other
            then m
            else (let m' = record m {
              stats = record m.stats { verify_errors = inc m.stats.verify_errors };
            } in
                if m.config.auto_repair then repair_file m' m.config.mirror_path offset out else m')
      ]
      else m

  -- The fall back to the mirror.
  unfoldable pub read_mirror : Manager → ℕ → ℕ → Bytes → Manager × Option Bytes
  unfolding read_file enabled repair_file
  read_mirror m offset size out =
      if enabled m.config
      then elim (read_file access m.files m.config.mirror_path offset size out) [
        | none ↦ (m, none)
        | some got ↦
            let m' = record m {
              stats = record m.stats { reads_mirror = inc m.stats.reads_mirror };
            } in
            (
              if m.config.auto_repair then repair_file m' m.config.primary_path offset got else m',
              some got,
            )
      ]
      else (m, none)

  -- `read` into the buffer `out`; `none` is a read that returns false.
  unfoldable pub read : Manager → ℕ → ℕ → Bytes → Manager × Option Bytes
  unfolding read_file check_mirror read_mirror
  read m offset size out =
      if is_empty m.config.primary_path
      then read_mirror m offset size out
      else elim (read_file access m.files m.config.primary_path offset size out) [
        | none ↦ read_mirror m offset size out
        | some got ↦ (
          check_mirror
              (record m { stats = record m.stats { reads_primary = inc m.stats.reads_primary } })
              offset size got,
          some got,
        )
      ]

  unfoldable pub write_primary : Manager → ℕ → Bytes → Manager × Bool
  unfolding write_file left_by
  write_primary m offset ds =
      if is_empty m.config.primary_path
      then (m, false)
      else elim (write_file access m.files m.config.primary_path offset ds) [
        | none ↦ (record m { files = left_by access m.files m.config.primary_path }, false)
        | some files ↦ (
          record m {
            files = files;
            stats = record m.stats { writes_primary = inc m.stats.writes_primary };
          },
          true,
        )
      ]

  unfoldable pub write_mirror : Manager → ℕ → Bytes → Manager
  unfolding write_file left_by enabled
  write_mirror m offset ds =
      if enabled m.config
      then elim (write_file access m.files m.config.mirror_path offset ds) [
        | none ↦ record m { files = left_by access m.files m.config.mirror_path }
        | some files ↦ record m {
          files = files;
          stats = record m.stats { writes_mirror = inc m.stats.writes_mirror };
        }
      ]
      else m

  unfoldable pub write : Manager → ℕ → Bytes → Manager × Bool
  unfolding write_primary write_mirror
  write m offset ds =
      let (m', primary_ok) = write_primary m offset ds in (write_mirror m' offset ds, primary_ok)

  unfoldable pub verify : Manager → ℕ → ℕ → Manager × Bool
  unfolding read_file enabled equal
  verify m offset size =
      if not (enabled m.config)
      then (m, false)
      else elim (read_file access m.files m.config.primary_path offset size []) [
        | none ↦ (m, false)
        | some ours ↦ elim (read_file access m.files m.config.mirror_path offset size []) [
          | none ↦ (m, false)
          | some other ↦ if equal ours other then (m, true) else (
            record m { stats = record m.stats { verify_errors = inc m.stats.verify_errors } },
            false,
          )
        ]
      ]

  unfoldable pub repair : Manager → ℕ → ℕ → Manager × Bool
  unfolding read_file write_file left_by enabled
  repair m offset size =
      if not (enabled m.config)
      then (m, false)
      else elim (read_file access m.files m.config.primary_path offset size []) [
        | none ↦ (m, false)
        | some ours ↦ elim (write_file access m.files m.config.mirror_path offset ours) [
          | none ↦ (record m { files = left_by access m.files m.config.mirror_path }, false)
          | some files ↦ (
            record m { files = files; stats = record m.stats { repairs = inc m.stats.repairs } },
            true,
          )
        ]
      ]

unfoldable pub reset_stats : Manager → Manager
reset_stats m = record m { stats = no_stats }
