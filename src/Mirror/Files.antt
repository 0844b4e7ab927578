-- ===== src/Mirror/Files.antt =====
-- ssd_tier/mirror_manager.cpp: `read_file`, `write_file` and `file_size`.
use desiree_ia.Prelude.{
  ℕ, zero, suc, ◌+◌, Option, none, some, [], ◌∷◌, ◌++◌, length, take, drop, equal, ◌^◌, Bool, false,
  ltb, if◌then◌else◌, Bytes,
}

-- `std::vector::resize`, and the zeros before a write beyond the end of a file.
unfoldable pub resize : ℕ → Bytes → Bytes
resize zero l = []
resize (suc n) [] = 0 ∷ resize n []
resize (suc n) (c ∷ l) = c ∷ resize n l

-- The buffer after a read at an offset: what the file does not have is left as it was.
unfoldable pub read_at : Bytes → ℕ → ℕ → Bytes → Bytes
unfolding resize
read_at content offset size out =
    let got = take size (drop offset content) in got ++ drop (length got) (resize size out)

-- The file after a write at an offset.
unfoldable pub write_at : Bytes → ℕ → Bytes → Bytes
unfolding resize
write_at content offset [] = content
write_at content offset (d ∷ ds) =
    resize offset content ++ ((d ∷ ds) ++ drop (offset + length (d ∷ ds)) content)

abbrev pub Files : Type 0
Files = Bytes → Option Bytes

-- Which paths can be opened for reading, and for writing, and which offsets the system can seek to.
pub record Access : Type 0 where
  pub readable : Bytes → Bool
  pub writable : Bytes → Bool
  pub seekable : ℕ → Bool

module _ (access : Access) where
  -- Whether `seekg` or `seekp` succeeds: an offset of 2^63 or more is negative as a `streamoff`.
  unfoldable pub seeks : ℕ → Bool
  seeks offset = if ltb offset (2 ^ 63) then access.seekable offset else false

  unfoldable pub open_read : Files → Bytes → Option Bytes
  open_read files path = if access.readable path then files path else none

  unfoldable pub read_file : Files → Bytes → ℕ → ℕ → Bytes → Option Bytes
  unfolding open_read seeks read_at
  read_file files path offset size out = elim (open_read files path) [
    | none ↦ none
    | some content ↦ if seeks offset then some (read_at content offset size out) else none
  ]

  -- `none` is a file of size -1.
  unfoldable pub file_size : Files → Bytes → Option ℕ
  unfolding open_read
  file_size files path = elim (open_read files path) [
    | none ↦ none
    | some content ↦ some (length content)
  ]

  -- A file that cannot be opened for both is made anew, and emptied if it is there.
  unfoldable pub open_write : Files → Bytes → Option Bytes
  unfolding open_read
  open_write files path =
      if access.writable path
      then elim (open_read files path) [ none ↦ some [] | some content ↦ some content ]
      else none

  abbrev pub put : Files → Bytes → Bytes → Files
  put files path content = λ p. if equal p path then some content else files p

  -- The files after a write that returns true.
  unfoldable pub write_file : Files → Bytes → ℕ → Bytes → Option Files
  unfolding open_write seeks write_at
  write_file files path offset ds = elim (open_write files path) [
    | none ↦ none
    | some content ↦
        if seeks offset then some (put files path (write_at content offset ds)) else none
  ]

  -- The files after a write that returns false: the file may have been opened, or made anew.
  unfoldable pub left_by : Files → Bytes → Files
  unfolding open_write
  left_by files path = elim (open_write files path) [
    | none ↦ files
    | some content ↦ put files path content
  ]
