-- ===== src/Mirror/Fallback.antt =====
-- ssd_tier/mirror_manager.cpp, `read`: what the fall back to the mirror does to a primary file that
-- is not there.
use mathlib.Core.Path.{subst}
use desiree_ia.Prelude.{
  ℕ, ◌+◌, ◌≤◌, true, false, none, some, [], ◌∷◌, ◌++◌, length, take, drop, ◌≡◌, refl, ap, ◌∙◌,
  arith, is_empty, equal_iff, Bytes,
}
use desiree_ia.Mirror.Files.{
  resize, read_at, write_at, Access, open_read, seeks, read_file, open_write, write_file,
}
use desiree_ia.Mirror.Manager.{Manager, enabled, repair_file, read_mirror, read}
use desiree_ia.Mirror.Written.{take_front, append_nil, drop_all_resize}
use desiree_ia.Mirror.Repaired.{length-resize, length-read_at}

zeros_front : (n : ℕ) (rest out : Bytes) → read_at (resize n [] ++ rest) 0 n out ≡ resize n []
unfolding read_at
zeros_front n rest out =
    let front : take n (resize n [] ++ rest) ≡ resize n [] =
      subst (λ k. take k (resize n [] ++ rest) ≡ resize n []) (length-resize n [])
        (take_front (resize n []) rest) in
    rw (front, length-resize n [], drop_all_resize n out) (append_nil (resize n []))

zeros_back :
    (got out : Bytes) (n : ℕ) → 1 ≤ length got → read_at (write_at [] n got) 0 n out ≡ resize n []
unfolding write_at
zeros_back [] out n h = absurd (omega arith)
zeros_back (d ∷ ds) out n h = zeros_front n ((d ∷ ds) ++ drop (n + length (d ∷ ds)) []) out

-- A mirrored pair of which the primary file is missing.
pub record IsLost (access : Access) (m : Manager) (content : Bytes) : Type 0 where
  pub primary : is_empty m.config.primary_path ≡ false
  pub mirror : is_empty m.config.mirror_path ≡ false
  pub reads_primary : access.readable m.config.primary_path ≡ true
  pub writes_primary : access.writable m.config.primary_path ≡ true
  pub reads_mirror : access.readable m.config.mirror_path ≡ true
  pub missing : m.files m.config.primary_path ≡ none
  pub kept : m.files m.config.mirror_path ≡ some content
  pub repairs : m.config.auto_repair ≡ true

module _ (access : Access) (m : Manager) (content : Bytes) (lost : IsLost access m content) where
  repaired :
      (offset size : ℕ) (out : Bytes)
      → seeks access offset ≡ true
      → (read access m offset size out).0.files m.config.primary_path
        ≡ some (write_at [] offset (read_at content offset size out))
  unfolding read read_file open_read read_mirror enabled repair_file write_file open_write
  repaired offset size out on = ground (
    arith,
    lost.primary,
    lost.mirror,
    lost.reads_primary,
    lost.writes_primary,
    lost.reads_mirror,
    lost.missing,
    lost.kept,
    lost.repairs,
    (equal_iff m.config.primary_path m.config.primary_path).1 refl,
  )

  answered :
      (offset size : ℕ) (out : Bytes)
      → seeks access offset ≡ true
      → ((read access m offset size out).1 ≡ some (read_at content offset size out))
        × ((read access m offset size out).0.config ≡ m.config)
  unfolding read read_file open_read read_mirror enabled repair_file
  answered offset size out on = ground (
    arith, lost.primary, lost.mirror, lost.reads_primary, lost.reads_mirror, lost.missing,
    lost.kept, lost.repairs,
  )

read_present :
    (access : Access) (m : Manager) (path file : Bytes) (offset size : ℕ) (out : Bytes)
    → m.config.primary_path ≡ path
    → is_empty path ≡ false
    → access.readable path ≡ true
    → seeks access offset ≡ true
    → m.files path ≡ some file
    → (read access m offset size out).1 ≡ some (read_at file offset size out)
unfolding read read_file open_read
read_present access m path file offset size out p e r on f = rw (p, e, r, f, on) refl

-- Where both paths are given, the primary file is missing, but its path can be read and written, the
-- mirror file is there and can be read, repairs are on, and the offset and 0 can be sought, a read
-- of one byte or more at the offset is answered from the mirror; after it a read from the start up
-- to that offset is answered with zeros, whatever the mirror holds there.
pub read_after_fallback :
    (access : Access) (m : Manager) (content : Bytes) (offset size : ℕ) (out later : Bytes)
    → IsLost access m content
    → seeks access offset ≡ true
    → seeks access 0 ≡ true
    → 1 ≤ size
    → ((read access m offset size out).1 ≡ some (read_at content offset size out))
      × ((read access (read access m offset size out).0 0 offset later).1 ≡ some (resize offset []))
read_after_fallback access m content offset size out later lost on on0 h =
    let m' = (read access m offset size out).0 in
    let got = read_at content offset size out in
    let (answer, same) = answered access m content lost offset size out on in
    (
      answer,
      read_present access m' m.config.primary_path (write_at [] offset got) 0 offset later
            (ap (λ c. c.primary_path) same) lost.primary lost.reads_primary on0
            (repaired access m content lost offset size out on)
          ∙ ap some
              (zeros_back got later offset (omega (arith, length-read_at content offset size out))),
    )
