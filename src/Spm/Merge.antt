-- ===== src/Spm/Merge.antt =====
-- tokenizer/spm_tokenizer.cpp, `encode_merge`: the symbols and their merges. Where the order of the queue leaves
-- two pairs equal, the one that was pushed last is taken.
use desiree_ia.Prelude.{
  ℕ, zero, suc, ◌+◌, ◌-◌, Bool, not, ◌&&◌, ◌||◌, Option, none, some, List, [], ◌∷◌, length, take,
  drop, get_or, set, is_empty, ltb, ◌==◌, if◌then◌else◌, Bytes,
}
use desiree_ia.Bpe.ByteMap.{utf8_len}
use desiree_ia.Bpe.Encode.{last_index}
use desiree_ia.Spm.{Order, Tokenizer}

-- `Sym`; an index of -1 is `none`.
pub record Sym : Type 0 where
  pub start : ℕ
  pub len : ℕ
  pub prev : Option ℕ
  pub next : Option ℕ

abbrev pub no_sym : Sym
no_sym = record { start = 0; len = 0; prev = none; next = none }

pub record Pair (F : Type 0) : Type 0 where
  pub left : ℕ
  pub right : ℕ
  pub score : F
  pub size : ℕ

-- The length of the character at the front, up to the end.
abbrev pub char_len : ℕ → Bytes → ℕ
char_len c rest = if ltb (suc (length rest)) (utf8_len c) then suc (length rest) else utf8_len c

abbrev pub before : ℕ → Option ℕ
before zero = none
before (suc i) = some i

-- The symbols from the index `n` on, at the byte `start`; `skipped` bytes of a character are left.
unfoldable pub symbols : ℕ → ℕ → ℕ → Bytes → List Sym
unfolding utf8_len
symbols n start skipped [] = []
symbols n start (suc skipped) (c ∷ text) = symbols n (suc start) skipped text
symbols n start zero (c ∷ text) =
    let len = char_len c text in
    let rest = symbols (suc n) (suc start) (len - 1) text in
    record {
      start = start;
      len = len;
      prev = before n;
      next = if is_empty rest then none else some (suc n);
    }
    ∷ rest

-- `norm.substr(start, size)`
abbrev pub substr : Bytes → ℕ → ℕ → Bytes
substr norm start size = take size (drop start norm)

-- `sym[i].prev = left`
unfoldable pub link : Option ℕ → ℕ → List Sym → List Sym
link none left syms = syms
link (some i) left syms = set syms i (record (get_or syms i no_sym) { prev = some left })

-- The pair was not superseded by another merge.
abbrev pub stands : {F : Type 0} → Pair F → List Sym → Bool
stands p syms =
    let l = (get_or syms p.left no_sym).len in
    let r = (get_or syms p.right no_sym).len in not (l == 0) && not (r == 0) && (l + r == p.size)

unfoldable pub merge : {F : Type 0} → Pair F → List Sym → List Sym
unfolding link
merge p syms =
    let l = get_or syms p.left no_sym in
    let r = get_or syms p.right no_sym in
    link r.next p.left (
      set (set syms p.left (record l { len = l.len + r.len; next = r.next })) p.right
        (record r { len = 0 }))

module _ {F : Type 0} (order : Order F) where
  -- `worse`, by which the queue has the best pair on top.
  abbrev pub worse : Pair F → Pair F → Bool
  worse x y = order.less x.score y.score || (order.same x.score y.score && ltb y.left x.left)

  -- The top of a queue, and the others.
  unfoldable pub pop : List (Pair F) → Option (Pair F × List (Pair F))
  pop [] = none
  pop (p ∷ queue) = elim (pop queue) [
    | none ↦ some (p, [])
    | some (q, rest) ↦ if worse p q then some (q, p ∷ rest) else some (p, queue)
  ]

  module _ (t : Tokenizer F) (norm : Bytes) where
    unfoldable pub try_pair : Option ℕ → Option ℕ → List Sym → List (Pair F) → List (Pair F)
    unfolding last_index
    try_pair (some l) (some r) syms queue =
        let x = get_or syms l no_sym in
        let size = x.len + (get_or syms r no_sym).len in
        elim (last_index 0 t.tokens (substr norm x.start size)) [
          | none ↦ queue
          | some id ↦
              record { left = l; right = r; score = get_or t.scores id order.nought; size = size }
              ∷ queue
        ]
    try_pair _ _ syms queue = queue

    -- The pairs of neighbours, of which `n` are left from the index `i` on.
    unfoldable pub first_pairs : ℕ → ℕ → List Sym → List (Pair F) → List (Pair F)
    unfolding try_pair
    first_pairs zero i syms queue = queue
    first_pairs (suc n) i syms queue =
        first_pairs n (suc i) syms (try_pair (some i) (some (suc i)) syms queue)

    -- The loop over the queue, with a bound on its rounds; `none` where it is met.
    unfoldable pub merge_loop : ℕ → List (Pair F) → List Sym → Option (List Sym)
    unfolding pop merge try_pair
    merge_loop zero queue syms = none
    merge_loop (suc f) queue syms = elim (pop queue) [
      | none ↦ some syms
      | some (p, rest) ↦
          if stands p syms
          then (let syms' = merge p syms in
              let l = get_or syms' p.left no_sym in
              merge_loop f
                (try_pair (some p.left) l.next syms' (try_pair l.prev (some p.left) syms' rest))
                syms')
          else merge_loop f rest syms
    ]
