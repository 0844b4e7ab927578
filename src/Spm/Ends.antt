-- ===== src/Spm/Ends.antt =====
-- tokenizer/spm_tokenizer.cpp, `encode_merge`: when its loop ends.
use desiree_ia.Prelude.{
  ℕ, zero, suc, ◌+◌, ◌*◌, ◌≤◌, ◌<◌, true, false, Option, none, some, List, [], ◌∷◌, length, get_or,
  set, ◌==◌, if◌then◌else◌, Bytes, ◌≡◌, refl, ap, arith, Bool-cases, Option-cases, inl, inr,
}
use desiree_ia.Bpe.Encode.{last_index}
use desiree_ia.Spm.{Order, Tokenizer}
use desiree_ia.Spm.Merge.{
  Sym, no_sym, Pair, worse, pop, substr, try_pair, link, stands, merge, merge_loop,
}

-- The symbols that are not merged into another one.
abbrev pub alive : List Sym → ℕ
alive [] = 0
alive (x ∷ syms) = (if x.len == 0 then 0 else 1) + alive syms

alive-set_le :
    (syms : List Sym) (i : ℕ) (v : Sym)
    → ((get_or syms i no_sym).len == 0) ≡ false
    → alive (set syms i v) ≤ alive syms
alive-set_le [] i v h = omega arith
alive-set_le (x ∷ syms) zero v h = ground arith
alive-set_le (x ∷ syms) (suc i) v h = omega (arith, alive-set_le syms i v h)

alive-set_dead :
    (syms : List Sym) (i : ℕ) (v : Sym)
    → ((get_or syms i no_sym).len == 0) ≡ false
    → v.len ≡ 0
    → suc (alive (set syms i v)) ≡ alive syms
alive-set_dead [] i v h e = ground arith
alive-set_dead (x ∷ syms) zero v h e = ground arith
alive-set_dead (x ∷ syms) (suc i) v h e = omega (arith, alive-set_dead syms i v h e)

alive-set_same :
    (syms : List Sym) (i : ℕ) (v : Sym)
    → v.len ≡ (get_or syms i no_sym).len
    → alive (set syms i v) ≡ alive syms
alive-set_same [] i v h = refl
alive-set_same (x ∷ syms) zero v h = rw h refl
alive-set_same (x ∷ syms) (suc i) v h = omega (arith, alive-set_same syms i v h)

-- A change that leaves a symbol alive leaves every living symbol so.
still_alive :
    (syms : List Sym) (i j : ℕ) (v : Sym)
    → (v.len == 0) ≡ false
    → ((get_or syms j no_sym).len == 0) ≡ false
    → ((get_or (set syms i v) j no_sym).len == 0) ≡ false
still_alive [] i j v h k = k
still_alive (x ∷ syms) zero zero v h k = h
still_alive (x ∷ syms) zero (suc j) v h k = k
still_alive (x ∷ syms) (suc i) zero v h k = k
still_alive (x ∷ syms) (suc i) (suc j) v h k = still_alive syms i j v h k

link-alive : (o : Option ℕ) (left : ℕ) (syms : List Sym) → alive (link o left syms) ≡ alive syms
unfolding link
link-alive none left syms = refl
link-alive (some i) left syms = alive-set_same syms i _ refl

merge-alive :
    {F : Type 0}
    → (p : Pair F) (syms : List Sym) → stands p syms ≡ true
    → suc (alive (merge p syms)) ≤ alive syms
unfolding merge
merge-alive p syms h =
    let l = get_or syms p.left no_sym in
    let r = get_or syms p.right no_sym in
    let l_alive : (l.len == 0) ≡ false = ground arith in
    let r_alive : (r.len == 0) ≡ false = ground arith in
    let joined : Sym = record l { len = l.len + r.len; next = r.next } in
    let syms1 : List Sym = set syms p.left joined in
    omega (
      arith,
      alive-set_le syms p.left joined l_alive,
      alive-set_dead syms1 p.right (record r { len = 0 })
          (still_alive syms p.left p.right joined (ground arith) r_alive) refl,
      link-alive r.next p.left (set syms1 p.right (record r { len = 0 })),
    )

module _ {F : Type 0} (order : Order F) where
  abbrev Popped : List (Pair F) → Option (Pair F × List (Pair F)) → Type 0
  Popped queue none = length queue ≡ 0
  Popped queue (some (p, rest)) = length queue ≡ suc (length rest)

  pop-Popped : (queue : List (Pair F)) → Popped queue (pop order queue)
  unfolding pop
  pop-Popped [] = refl
  pop-Popped (p ∷ queue) = elim (Option-cases (pop order queue)) [
    | inl n ↦
        let empty : length queue ≡ 0 = rw n at (pop-Popped queue) in
        rw (n, pop) (ap (λ m. suc m) empty)
    | inr ((q, rest), n) ↦
        let less : length queue ≡ suc (length rest) = rw n at (pop-Popped queue) in
        elim (Bool-cases (worse order p q)) [
          | inl w ↦ rw (n, w, pop) (ap (λ m. suc m) less)
          | inr w ↦ rw (n, w, pop) refl
        ]
  ]

  module _ (t : Tokenizer F) (norm : Bytes) where
    try_pair-le :
        (l r : Option ℕ) (syms : List Sym) (queue : List (Pair F))
        → length (try_pair order t norm l r syms queue) ≤ suc (length queue)
    unfolding try_pair
    try_pair-le none r syms queue = omega arith
    try_pair-le (some l) none syms queue = omega arith
    try_pair-le (some l) (some r) syms queue =
        found (last_index 0 t.tokens (substr norm (get_or syms l no_sym).start _))
      where
        found :
            (o : Option ℕ)
            → length {A = Pair F} (elim o [
              | none ↦ queue
              | some id ↦
                  record {
                    left = l;
                    right = r;
                    score = get_or t.scores id order.nought;
                    size = (get_or syms l no_sym).len + (get_or syms r no_sym).len;
                  }
                  ∷ queue
            ])
              ≤ suc (length queue)
        found none = omega arith
        found (some id) = omega arith

module _ {F : Type 0} (order : Order F) (t : Tokenizer F) (norm : Bytes) where
  -- Each round takes a pair out of the queue, and puts in two at most where it merges two symbols:
  -- with more rounds than pairs and two for each symbol that is left the loop ends.
  pub merge_loop_returns :
      (f : ℕ) (queue : List (Pair F)) (syms : List Sym)
      → length queue + 2 * alive syms < f
      → (out : List Sym) × (merge_loop order t norm f queue syms ≡ some out)
  unfolding merge_loop
  merge_loop_returns zero queue syms h = absurd (omega arith)
  merge_loop_returns (suc f) queue syms h = elim (Option-cases (pop order queue)) [
    | inl n ↦ rw (n, merge_loop) (syms, refl)
    | inr ((p, rest), n) ↦
        let less : length queue ≡ suc (length rest) = rw n at (pop-Popped order queue) in
        elim (Bool-cases (stands p syms)) [
          | inl s ↦
              let syms' : List Sym = merge p syms in
              let l : Sym = get_or syms' p.left no_sym in
              let one : List (Pair F) = try_pair order t norm l.prev (some p.left) syms' rest in
              let fewer = merge-alive p syms s in
              rw (n, s, merge_loop)
                (merge_loop_returns f (try_pair order t norm (some p.left) l.next syms' one) syms' (
                  omega (
                    arith,
                    fewer,
                    less,
                    try_pair-le order t norm l.prev (some p.left) syms' rest,
                    try_pair-le order t norm (some p.left) l.next syms' one,
                  )))
          | inr s ↦ rw (n, s, merge_loop) (merge_loop_returns f rest syms (omega (arith, less)))
        ]
  ]
