-- ===== src/SsdTier/Stale.antt =====
-- ssd_tier/ssd_tier.cpp, a `write` of more than one block.
use desiree_ia.Prelude.{
  ℕ, zero, suc, ◌+◌, ◌*◌, ◌<◌, ◌≤◌, ◌^◌, ◌==◌, true, false, none, some, List, [], ◌∷◌, ◌++◌, length,
  drop, ◌≡◌, refl, sym, ap, ◌∙◌, arith, is_empty, append_assoc, Bytes, Option-cases, Bool-cases,
  inl, inr,
}
use mathlib.Core.Path.{subst}
use desiree_ia.Mirror.Files.{
  Files, Access, read_at, write_at, open_read, seeks, read_file, open_write, write_file,
}
use desiree_ia.Mirror.Written.{
  Written, WrittenIn, drop-resize, overlaid, write_file-Written, write_file-keeps, left_by-same,
  not_none,
}
use desiree_ia.HybridTier.{number_key, inc64}
use desiree_ia.HybridTier.Lru.{Entry, find, touch, remove, inc32}
use desiree_ia.HybridTier.Eviction.{find-key}
use desiree_ia.SsdTier.Writes.{find-other, find-remove_other, read-InFront}
use desiree_ia.SsdTier.{
  Tier, read, write, cache_write, read_block, offset_of, block_size, mirror_active, write_model,
  write_mirror,
}

drop-nil : (n : ℕ) → drop {A = ℕ} n [] ≡ []
drop-nil zero = refl
drop-nil (suc n) = refl

drop_add : (a b : ℕ) (l : Bytes) → drop (a + b) l ≡ drop b (drop a l)
drop_add zero b l = ap (λ n. drop n l) (omega arith)
drop_add (suc a) b [] = drop-nil (suc a + b) ∙ sym (drop-nil b)
drop_add (suc a) b (c ∷ l) = ap (λ n. drop n (c ∷ l)) (suc_add a b) ∙ drop_add a b l
  where
    suc_add : (a b : ℕ) → suc a + b ≡ suc (a + b)
    suc_add a b = omega arith

drop_front : (p q : Bytes) → drop (length p) (p ++ q) ≡ q
drop_front [] q = refl
drop_front (c ∷ p) q = drop_front p q

-- What was written behind `front` is read behind it.
read_at_behind :
    (content front rest out : Bytes) (offset : ℕ)
    → 1 ≤ length front
    → read_at (write_at content offset (front ++ rest)) (offset + length front) (length rest) out
      ≡ rest
unfolding write_at
read_at_behind content [] rest out offset h = absurd (omega arith)
read_at_behind content (c ∷ front) rest out offset h =
    let tail = drop (offset + length ((c ∷ front) ++ rest)) content in
    overlaid (write_at content offset ((c ∷ front) ++ rest)) rest tail out
      (offset + length (c ∷ front))
      (drop_add offset (length (c ∷ front)) _
        ∙ ap (drop (length (c ∷ front)))
            (drop-resize offset content (((c ∷ front) ++ rest) ++ tail))
        ∙ ap (drop (length (c ∷ front))) (append_assoc (c ∷ front) rest tail)
        ∙ drop_front (c ∷ front) (rest ++ tail))

cached_other :
    (l : List (Entry ℕ Bytes)) (key k : ℕ) (x y : Entry ℕ Bytes) (ds : Bytes)
    → (key == k) ≡ false
    → find key l ≡ some y
    → find k l ≡ some x
    → find k (touch (record y { content = ds }) l) ≡ some x
unfolding touch
cached_other l key k x y ds n g f =
    let other : (y.key == k) ≡ false = subst (λ j. (j == k) ≡ false) (sym (find-key key l y g)) n in
    find-other k (record y { content = ds; hits = inc32 y.hits }) (remove y.key l) other
    ∙ find-remove_other k y.key l other
    ∙ f

module _ (access : Access) where
  write_mirror-Written :
      (t : Tier) (files : Files) (key : ℕ) (ds path : Bytes)
      → seeks access (offset_of key) ≡ true
      → Written files path (offset_of key) ds
      → Written (write_mirror access t files key ds) path (offset_of key) ds
  unfolding write_mirror
  write_mirror-Written t files key ds path s w = elim (Bool-cases (mirror_active t)) [
    | inr off ↦ rw (off, write_mirror) w
    | inl on ↦
        elim (Option-cases (write_file access files t.config.mirror_path (offset_of key) ds)) [
          | inl n ↦
              rw
                (
                  on,
                  n,
                  left_by-same access (offset_of key) ds files t.config.mirror_path s n,
                  write_mirror,
                )
                w
          | inr (files', n) ↦
              let kept : WrittenIn (some files') path (offset_of key) ds =
                rw n at
                  (write_file-keeps access (offset_of key) ds files path t.config.mirror_path w) in
              rw (on, n, write_mirror) kept
        ]
  ]

  read_block-Written :
      (t : Tier) (key : ℕ) (front rest : Bytes)
      → is_empty t.config.model_path ≡ false
      → access.readable t.config.model_path ≡ true
      → length front ≡ block_size
      → length rest ≡ block_size
      → (key + 1) * block_size < 2 ^ 64
      → seeks access (offset_of (suc key)) ≡ true
      → Written t.files t.config.model_path (offset_of key) (front ++ rest)
      → read_block access t (suc key) ≡ some rest
  unfolding read_block read_file open_read
  read_block-Written t key front rest m r f l o on (content, w) =
      let behind : read_at (write_at content (offset_of key) (front ++ rest)) (offset_of (suc key))
            block_size []
          ≡ rest =
        ap
          (λ n.
            read_at (write_at content (offset_of key) (front ++ rest)) (offset_of (suc key)) n [])
          (sym l)
        ∙ ap (λ n. read_at (write_at content (offset_of key) (front ++ rest)) n (length rest) [])
            (omega arith)
        ∙ read_at_behind content front rest [] (offset_of key) (omega arith) in
      rw (m, r, w, on, read_block, read_file, open_read) (ap (λ d. some d) behind)

  no_failure :
      (files : Files) (path : Bytes) (offset : ℕ) (ds : Bytes)
      → access.writable path ≡ true
      → seeks access offset ≡ true
      → write_file access files path offset ds ≡ none
      → ⊥
  unfolding write_file open_write
  no_failure files path offset ds w on h = elim (Option-cases (open_read access files path)) [
    | inl n ↦ not_none (rw (w, n, on, write_file, open_write) at h)
    | inr (content, n) ↦ not_none (rw (w, n, on, write_file, open_write) at h)
  ]

  write_model-writes :
      (t : Tier) (key : ℕ) (ds : Bytes)
      → is_empty t.config.model_path ≡ false
      → access.readable t.config.model_path ≡ true
      → access.writable t.config.model_path ≡ true
      → seeks access (offset_of key) ≡ true
      → (files : Files) × (write_model access t key ds ≡ some files)
        × Written files t.config.model_path (offset_of key) ds
  unfolding write_model
  write_model-writes t key ds m r w on =
      elim (Option-cases (write_file access t.files t.config.model_path (offset_of key) ds)) [
        | inl n ↦ absurd (no_failure t.files t.config.model_path (offset_of key) ds w on n)
        | inr (files, n) ↦
            let kept : WrittenIn (some files) t.config.model_path (offset_of key) ds =
              rw n at (write_file-Written access (offset_of key) ds t.files t.config.model_path) in
            (files, rw (m, write_model) n, kept)
      ]

  -- Where a block and the next one are cached, a model path is given that can be read and written,
  -- and both their offsets can be sought and do not wrap, a write of two blocks' data at the first returns and says
  -- that it succeeded; then the files have the second half of the data as the next block, and a read
  -- of that answers what was cached before.
  pub read_stale :
      (t : Tier) (key : ℕ) (front rest : Bytes) (x y : Entry ℕ Bytes)
      → find key t.blocks ≡ some y
      → find (suc key) t.blocks ≡ some x
      → is_empty t.config.model_path ≡ false
      → access.readable t.config.model_path ≡ true
      → access.writable t.config.model_path ≡ true
      → length front ≡ block_size
      → length rest ≡ block_size
      → (key + 1) * block_size < 2 ^ 64
      → seeks access (offset_of key) ≡ true
      → seeks access (offset_of (suc key)) ≡ true
      → (t' : Tier) × (write access t key (front ++ rest) ≡ some (t', true))
        × (read_block access t' (suc key) ≡ some rest)
        × ((t'' : Tier) × (read access t' (suc key) ≡ some (t'', some x.content)))
  unfolding write cache_write
  read_stale t key front rest x y g f m r w lf lr o on on' =
      let (files, e, written) = write_model-writes t key (front ++ rest) m r w on in
      let t' : Tier = record t {
        files = write_mirror access t files key (front ++ rest);
        blocks = touch (record y { content = front ++ rest }) t.blocks;
      } in
      let cached = cached_other t.blocks key (suc key) x y (front ++ rest) (ground arith) g f in
      let t'' : Tier = record t' { blocks = touch x t'.blocks; hits = inc64 t'.hits } in
      (
        t',
        rw (e, write, g, cache_write) refl,
        read_block-Written t' key front rest m r lf lr o on'
            (write_mirror-Written t files key (front ++ rest) t.config.model_path on written),
        (t'', read-InFront access t' (suc key) x cached),
      )
