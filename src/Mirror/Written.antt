-- ===== src/Mirror/Written.antt =====
-- ssd_tier/mirror_manager.cpp, `write` and then `read`.
use desiree_ia.Prelude.{
  ℕ, zero, suc, ◌+◌, true, false, Option, none, some, [], ◌∷◌, ◌++◌, length, take, drop, ◌≡◌, refl,
  ap, ◌∙◌, arith, is_empty, equal, equal_iff, Bytes, Option-cases, Bool-cases, inl, inr,
}
use desiree_ia.Mirror.Files.{
  resize, read_at, write_at, Files, Access, open_read, seeks, read_file, open_write, write_file,
  left_by,
}
use desiree_ia.Mirror.Manager.{Manager, enabled, read, write, write_primary, write_mirror}

pub drop-resize : (n : ℕ) (l rest : Bytes) → drop n (resize n l ++ rest) ≡ rest
unfolding resize
drop-resize zero l rest = refl
drop-resize (suc n) [] rest = drop-resize n [] rest
drop-resize (suc n) (c ∷ l) rest = drop-resize n l rest

pub take_front : (p q : Bytes) → take (length p) (p ++ q) ≡ p
take_front [] q = refl
take_front (x ∷ p) q = ap (λ r. x ∷ r) (take_front p q)

pub drop_all_resize : (n : ℕ) (l : Bytes) → drop n (resize n l) ≡ []
unfolding resize
drop_all_resize zero l = refl
drop_all_resize (suc n) [] = drop_all_resize n []
drop_all_resize (suc n) (c ∷ l) = drop_all_resize n l

pub append_nil : (l : Bytes) → l ++ [] ≡ l
append_nil [] = refl
append_nil (c ∷ l) = ap (λ r. c ∷ r) (append_nil l)

pub overlaid :
    (file ds rest out : Bytes) (offset : ℕ)
    → drop offset file ≡ ds ++ rest
    → read_at file offset (length ds) out ≡ ds
unfolding read_at
overlaid file ds rest out offset e =
    rw (e, take_front ds rest, drop_all_resize (length ds) out) (append_nil ds)

-- What was written at an offset is read there.
pub read_at-write_at :
    (content ds out : Bytes) (offset : ℕ)
    → read_at (write_at content offset ds) offset (length ds) out ≡ ds
unfolding write_at
read_at-write_at content [] out offset = overlaid content [] (drop offset content) out offset refl
read_at-write_at content (d ∷ ds) out offset =
    overlaid (write_at content offset (d ∷ ds)) (d ∷ ds) (drop (offset + length (d ∷ ds)) content)
      out offset (drop-resize offset content ((d ∷ ds) ++ drop (offset + length (d ∷ ds)) content))

-- The file at a path is one to which this was just written.
abbrev pub Written : Files → Bytes → ℕ → Bytes → Type 0
Written files path offset ds = (content : Bytes) × (files path ≡ some (write_at content offset ds))

abbrev pub WrittenIn : Option Files → Bytes → ℕ → Bytes → Type 0
WrittenIn none path offset ds = Unit
WrittenIn (some files) path offset ds = Written files path offset ds

pub not_none : {files : Files} → some files ≡ none → ⊥
not_none e = cc

module _ (access : Access) (offset : ℕ) (ds : Bytes) where
  pub write_file-Written :
      (files : Files) (path : Bytes)
      → WrittenIn (write_file access files path offset ds) path offset ds
  unfolding write_file
  write_file-Written files path = elim (Option-cases (open_write access files path)) [
    | inl n ↦ rw (n, write_file) tt
    | inr (c, o) ↦ elim (Bool-cases (seeks access offset)) [
      | inr off ↦ rw (o, off, write_file) tt
      | inl on ↦ rw (o, on, write_file) (c, rw ((equal_iff path path).1 refl) refl)
    ]
  ]

  -- A write that succeeds has sought.
  pub seeks_of_write :
      (files files' : Files) (path : Bytes)
      → write_file access files path offset ds ≡ some files'
      → seeks access offset ≡ true
  unfolding write_file
  seeks_of_write files files' path w = ground arith

  -- A write that fails at an offset that can be sought has not opened the file.
  pub left_by-same :
      (files : Files) (path : Bytes)
      → seeks access offset ≡ true
      → write_file access files path offset ds ≡ none
      → left_by access files path ≡ files
  unfolding write_file left_by
  left_by-same files path on w = elim (Option-cases (open_write access files path)) [
    | inl n ↦ rw (n, left_by) refl
    | inr (c, o) ↦ absurd (not_none (rw (o, on, write_file) at w))
  ]

  -- Another write of the same, to the same path or to another, changes nothing of that.
  pub write_file-keeps :
      (files : Files) (path other : Bytes)
      → Written files path offset ds
      → WrittenIn (write_file access files other offset ds) path offset ds
  unfolding write_file
  write_file-keeps files path other (c, w) = elim (Option-cases (open_write access files other)) [
    | inl n ↦ rw (n, write_file) tt
    | inr (c', o) ↦ elim (Bool-cases (seeks access offset)) [
      | inr off ↦ rw (o, off, write_file) tt
      | inl on ↦
          rw (o, on, write_file)
            (elim (Bool-cases (equal path other)) [
              | inl same ↦ (c', rw same refl)
              | inr differs ↦ (c, rw differs w)
            ])
    ]
  ]

  write_mirror-keeps :
      (m : Manager) (path : Bytes)
      → seeks access offset ≡ true
      → Written m.files path offset ds
      → Written (write_mirror access m offset ds).files path offset ds
  unfolding write_mirror
  write_mirror-keeps m path on_seek w = elim (Bool-cases (enabled m.config)) [
    | inr off ↦ rw (off, write_mirror) w
    | inl on ↦ elim (Option-cases (write_file access m.files m.config.mirror_path offset ds)) [
      | inl n ↦ rw (on, n, left_by-same m.files m.config.mirror_path on_seek n, write_mirror) w
      | inr (files, n) ↦
          let kept : Written files path offset ds =
            rw n at (write_file-keeps m.files path m.config.mirror_path w) in
          rw (on, n, write_mirror) kept
    ]
  ]

  write_primary-Written :
      (m : Manager)
      → (write_primary access m offset ds).1 ≡ true
      → Written (write_primary access m offset ds).0.files m.config.primary_path offset ds
  unfolding write_primary
  write_primary-Written m h = elim (Bool-cases (is_empty m.config.primary_path)) [
    | inl empty ↦ absurd (ground arith)
    | inr there ↦ elim (Option-cases (write_file access m.files m.config.primary_path offset ds)) [
      | inl n ↦ absurd (ground arith)
      | inr (files, n) ↦
          let written : Written files m.config.primary_path offset ds =
            rw n at (write_file-Written m.files m.config.primary_path) in
          rw (there, n, write_primary) written
    ]
  ]

  write_primary-seeks :
      (m : Manager) → (write_primary access m offset ds).1 ≡ true → seeks access offset ≡ true
  unfolding write_primary
  write_primary-seeks m h = elim (Bool-cases (is_empty m.config.primary_path)) [
    | inl empty ↦ absurd (ground arith)
    | inr there ↦ elim (Option-cases (write_file access m.files m.config.primary_path offset ds)) [
      | inl n ↦ absurd (ground arith)
      | inr (files, n) ↦ seeks_of_write m.files files m.config.primary_path n
    ]
  ]

  write_primary-config :
      (m : Manager)
      → (write_primary access m offset ds).1 ≡ true
      → (is_empty m.config.primary_path ≡ false)
        × ((write_primary access m offset ds).0.config ≡ m.config)
  unfolding write_primary
  write_primary-config m h = ground arith

  write_mirror-config : (m : Manager) → (write_mirror access m offset ds).config ≡ m.config
  unfolding write_mirror
  write_mirror-config m = ground arith

  read-Written :
      (m : Manager) (out : Bytes)
      → access.readable m.config.primary_path ≡ true
      → seeks access offset ≡ true
      → is_empty m.config.primary_path ≡ false
      → Written m.files m.config.primary_path offset ds
      → (read access m offset (length ds) out).1 ≡ some ds
  unfolding read read_file open_read
  read-Written m out r on there (c, w) = rw (r, there, w, on, read_at-write_at c ds out offset) refl

-- Where the primary path can be read, a write that says it succeeded is read back, whatever the
-- mirror does, whether or not both paths are the same, and whatever the buffer held.
pub read-write :
    (access : Access) (m : Manager) (offset : ℕ) (ds out : Bytes)
    → access.readable m.config.primary_path ≡ true
    → (write access m offset ds).1 ≡ true
    → (read access (write access m offset ds).0 offset (length ds) out).1 ≡ some ds
unfolding write
read-write access m offset ds out r ok =
    let m' = (write_primary access m offset ds).0 in
    let (there, same) = write_primary-config access offset ds m ok in
    let kept : (write_mirror access m' offset ds).config ≡ m.config =
      write_mirror-config access offset ds m' ∙ same in
    let on = write_primary-seeks access offset ds m ok in
    read-Written access offset ds (write_mirror access m' offset ds) out (rw kept r) on
      (rw kept there)
      (rw kept (
        write_mirror-keeps access offset ds m' m.config.primary_path on
          (write_primary-Written access offset ds m ok)))
