-- ===== src/Mirror/Repaired.antt =====
-- ssd_tier/mirror_manager.cpp: `repair` and then `verify`, and what a read repairs.
use desiree_ia.Prelude.{
  ℕ, zero, suc, true, false, Option, none, some, [], ◌∷◌, length, take, drop, ◌≡◌, refl, ap, ◌∙◌,
  sym, arith, equal, equal_iff, Bytes, Option-cases, Bool-cases, inl, inr, length-append,
  length-drop, length-take-le,
}
use mathlib.Core.Path.{subst}
use desiree_ia.Mirror.Files.{
  resize, read_at, write_at, Files, Access, open_read, seeks, read_file, open_write, write_file,
}
use desiree_ia.Mirror.Manager.{Manager, enabled, verify, repair}
use desiree_ia.Mirror.Written.{Written, write_file-Written, seeks_of_write, read_at-write_at}

pub length-resize : (n : ℕ) (l : Bytes) → length (resize n l) ≡ n
unfolding resize
length-resize zero l = refl
length-resize (suc n) [] = ap suc (length-resize n [])
length-resize (suc n) (c ∷ l) = ap suc (length-resize n l)

pub length-read_at :
    (content : Bytes) (offset size : ℕ) (out : Bytes)
    → length (read_at content offset size out) ≡ size
unfolding read_at
length-read_at content offset size out =
    let got = take size (drop offset content) in
    omega (
      arith,
      length-append got (drop (length got) (resize size out)),
      length-drop (length got) (resize size out),
      length-resize size out,
      length-take-le size (drop offset content),
    )

abbrev KeepsFile : Files → Bytes → Option Files → Type 0
KeepsFile files path none = Unit
KeepsFile files path (some files') = files' path ≡ files path

module _ (access : Access) (offset size : ℕ) where
  length-read_file :
      (files : Files) (path ours out : Bytes)
      → read_file access files path offset size out ≡ some ours
      → length ours ≡ size
  unfolding read_file
  length-read_file files path ours out r = elim (Option-cases (open_read access files path)) [
    | inl n ↦ absurd (ground arith)
    | inr (c, o) ↦ elim (Bool-cases (seeks access offset)) [
      | inr off ↦ absurd (ground arith)
      | inl on ↦
          let same : read_at c offset size out ≡ ours = ground arith in
          sym (ap length same) ∙ length-read_at c offset size out
    ]
  ]

  read_file_lem :
      (files : Files) (path content : Bytes) (n : ℕ) (out : Bytes)
      → access.readable path ≡ true
      → seeks access offset ≡ true
      → files path ≡ some content
      → read_file access files path offset n out ≡ some (read_at content offset n out)
  unfolding read_file open_read
  read_file_lem files path content n out r on e = ground arith

  read_back :
      (files : Files) (path ours : Bytes)
      → access.readable path ≡ true
      → seeks access offset ≡ true
      → Written files path offset ours
      → length ours ≡ size
      → read_file access files path offset size [] ≡ some ours
  unfolding read_file open_read
  read_back files path ours r on (c, w) l =
      subst (λ n. read_file access files path offset n [] ≡ some ours) l
        (read_file_lem files path (write_at c offset ours) (length ours) [] r on w
          ∙ ap some (read_at-write_at c ours [] offset))

  write_file-others :
      (files : Files) (path other ours : Bytes)
      → equal other path ≡ false
      → KeepsFile files other (write_file access files path offset ours)
  unfolding write_file
  write_file-others files path other ours d = elim (Option-cases (open_write access files path)) [
    | inl n ↦ rw (n, write_file) tt
    | inr (c, o) ↦ elim (Bool-cases (seeks access offset)) [
      | inr off ↦ rw (o, off, write_file) tt
      | inl on ↦ rw (o, on, write_file) (rw d refl)
    ]
  ]

  read_file-same :
      (files files' : Files) (path out : Bytes)
      → files' path ≡ files path
      → read_file access files' path offset size out ≡ read_file access files path offset size out
  unfolding read_file open_read
  read_file-same files files' path out e = rw (e, read_file, open_read) refl

  -- The primary is read as before, also where both paths are the same.
  read_file-primary :
      (files files' : Files) (primary mirror ours : Bytes)
      → access.readable mirror ≡ true
      → read_file access files primary offset size [] ≡ some ours
      → write_file access files mirror offset ours ≡ some files'
      → read_file access files' primary offset size [] ≡ some ours
  read_file-primary files files' primary mirror ours r p w =
      let written : Written files' mirror offset ours =
        rw w at (write_file-Written access offset ours files mirror) in
      elim (Bool-cases (equal primary mirror)) [
        | inl same ↦
            subst (λ path. read_file access files' path offset size [] ≡ some ours)
              (sym ((equal_iff primary mirror).0 same))
              (read_back files' mirror ours r
                (seeks_of_write access offset ours files files' mirror w) written
                (length-read_file files primary ours [] p))
        | inr differs ↦
            let kept : KeepsFile files primary (some files') =
              rw w at (write_file-others files mirror primary ours differs) in
            read_file-same files files' primary [] kept ∙ p
      ]

-- Where the mirror can be read, a repair that says it succeeded is followed by a verification that
-- succeeds, on the same range.
pub verify-repair :
    (access : Access) (m : Manager) (offset size : ℕ)
    → access.readable m.config.mirror_path ≡ true
    → (repair access m offset size).1 ≡ true
    → (verify access (repair access m offset size).0 offset size).1 ≡ true
unfolding verify repair
verify-repair access m offset size r ok = elim (Bool-cases (enabled m.config)) [
  | inr off ↦ absurd (ground arith)
  | inl on ↦ elim (Option-cases (read_file access m.files m.config.primary_path offset size [])) [
    | inl n ↦ absurd (ground arith)
    | inr (ours, p) ↦
        elim (Option-cases (write_file access m.files m.config.mirror_path offset ours)) [
          | inl n ↦ absurd (ground arith)
          | inr (files, w) ↦
              let written : Written files m.config.mirror_path offset ours =
                rw w at (write_file-Written access offset ours m.files m.config.mirror_path) in
              let back =
                read_back access offset size files m.config.mirror_path ours r
                  (seeks_of_write access offset ours m.files files m.config.mirror_path w) written
                  (length-read_file access offset size m.files m.config.primary_path ours [] p) in
              let front =
                read_file-primary access offset size m.files files m.config.primary_path
                  m.config.mirror_path ours r p w in
              ground (arith, front, back, (equal_iff ours ours).1 refl)
        ]
  ]
]
