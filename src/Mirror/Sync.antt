-- ===== src/Mirror/Sync.antt =====
-- ssd_tier/mirror_manager.cpp, `full_sync`.
use desiree_ia.Prelude.{
  ℕ, zero, suc, ◌+◌, ◌-◌, ◌*◌, Bool, true, false, not, Option, none, some, [], ◌==◌, ltb,
  if◌then◌else◌, Bytes,
}
use desiree_ia.Mirror.Files.{Files, Access, resize, read_file, write_file, left_by, file_size}
use desiree_ia.Mirror.Manager.{Config, Manager, inc, enabled}

abbrev pub min : ℕ → ℕ → ℕ
min a b = if ltb b a then b else a

module _ (access : Access) (config : Config) (chunk size : ℕ) where
  -- The loop over the chunks, with a bound on its rounds; `none` where the bound is met.
  unfoldable pub sync_from : ℕ → Files → ℕ → Bytes → Option (Files × Bool)
  unfolding read_file write_file left_by
  sync_from zero files offset buffer = if ltb offset size then none else some (files, true)
  sync_from (suc rounds) files offset buffer =
      if ltb offset size
      then elim (read_file access files config.primary_path offset (min chunk (size - offset))
          buffer) [
            | none ↦ some (files, false)
            | some got ↦ elim (write_file access files config.mirror_path offset got) [
              | none ↦ some (left_by access files config.mirror_path, false)
              | some files' ↦ sync_from rounds files' (offset + chunk) got
            ]
          ]
      else some (files, true)

-- `full_sync` with the size of a chunk; each round goes on by a chunk, so that the size bounds
-- the rounds.
unfoldable pub sync_chunks : Access → ℕ → Manager → Option (Manager × Bool)
unfolding enabled file_size sync_from resize
sync_chunks access chunk m =
    if not (enabled m.config)
    then some (m, false)
    else elim (file_size access m.files m.config.primary_path) [
      | none ↦ some (m, false)
      | some size ↦
          if size == 0
          then some (m, false)
          else elim (sync_from access m.config chunk size size m.files 0 (resize chunk [])) [
            | none ↦ none
            | some (files, ok) ↦ some (
                if ok
                then (
                  record m { files = files; stats = record m.stats { syncs = inc m.stats.syncs } },
                  true,
                )
                else (record m { files = files }, false))
          ]
    ]

-- 4 MB chunks.
abbrev pub chunk_size : ℕ
chunk_size = 4 * 1024 * 1024

unfoldable pub full_sync : Access → Manager → Option (Manager × Bool)
unfolding sync_chunks
full_sync access m = sync_chunks access chunk_size m
