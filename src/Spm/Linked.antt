-- ===== src/Spm/Linked.antt =====
-- tokenizer/spm_tokenizer.cpp, `encode_merge`: the links between the symbols.
use desiree_ia.Prelude.{
  ℕ, zero, suc, ◌+◌, ◌-◌, ◌<◌, Bool, true, false, Option, none, some, List, [], ◌∷◌, get_or,
  is_empty, if◌then◌else◌, Bytes, All, ◌≡◌, arith, Bool-cases, Option-cases, inl, inr,
}
use mathlib.Core.Path.{subst}
use desiree_ia.Prelude.Indexed.{get_or-set}
use desiree_ia.Bpe.Encode.{last_index}
use desiree_ia.Spm.{Order, Tokenizer}
use desiree_ia.Spm.Merge.{
  Sym, no_sym, Pair, char_len, before, symbols, worse, pop, substr, try_pair, first_pairs, link,
  stands, merge, merge_loop,
}

abbrev pub NextOk : ℕ → Option ℕ → Type 0
NextOk i none = Unit
NextOk i (some j) = i < j

abbrev pub PrevOk : ℕ → Option ℕ → Type 0
PrevOk i none = Unit
PrevOk i (some j) = j < i

-- The symbol at `i` has the next one behind it, and the one before it in front.
abbrev pub Placed : ℕ → Sym → Type 0
Placed i x = NextOk i x.next × PrevOk i x.prev

abbrev pub Linked : List Sym → Type 0
Linked syms = (i : ℕ) → Placed i (get_or syms i no_sym)

before-PrevOk : (n : ℕ) → PrevOk n (before n)
before-PrevOk zero = tt
before-PrevOk (suc n) = omega arith

if-NextOk : (b : Bool) (n : ℕ) → NextOk n (if b then none else some (suc n))
if-NextOk true n = tt
if-NextOk false n = omega arith

symbols-Placed :
    (text : Bytes) (n start skipped i : ℕ)
    → Placed (n + i) (get_or (symbols n start skipped text) i no_sym)
unfolding symbols
symbols-Placed [] n start skipped i = (tt, tt)
symbols-Placed (c ∷ text) n start (suc skipped) i = symbols-Placed text n (suc start) skipped i
symbols-Placed (c ∷ text) n start zero zero =
    let same : n ≡ n + 0 = omega arith in
    let rest : List Sym = symbols (suc n) (suc start) (char_len c text - 1) text in
    subst (λ m. Placed m (get_or (symbols n start zero (c ∷ text)) zero no_sym)) same
      (if-NextOk (is_empty rest) n, before-PrevOk n)
symbols-Placed (c ∷ text) n start zero (suc i) =
    let same : suc n + i ≡ n + suc i = omega arith in
    subst (λ m. Placed m (get_or (symbols n start zero (c ∷ text)) (suc i) no_sym)) same
      (symbols-Placed text (suc n) (suc start) (char_len c text - 1) i)

pub symbols-Linked : (text : Bytes) → Linked (symbols 0 0 0 text)
symbols-Linked text i =
    let same : 0 + i ≡ i = omega arith in
    subst (λ m. Placed m (get_or (symbols 0 0 0 text) i no_sym)) same (symbols-Placed text 0 0 0 i)

NextOk-before : (i j : ℕ) (o : Option ℕ) → i < j → NextOk j o → NextOk i o
NextOk-before i j none lt h = tt
NextOk-before i j (some k) lt h = omega arith

link-Linked :
    (o : Option ℕ) (left : ℕ) (syms : List Sym)
    → NextOk left o
    → Linked syms
    → Linked (link o left syms)
unfolding link
link-Linked none left syms lt h = h
link-Linked (some i) left syms lt h = get_or-set no_sym Placed syms i _ ((h i).0, lt) h

merge-Linked :
    {F : Type 0}
    → (p : Pair F) (syms : List Sym) → p.left < p.right
    → Linked syms
    → Linked (merge p syms)
unfolding merge
merge-Linked p syms lt h =
    let next = NextOk-before p.left p.right (get_or syms p.right no_sym).next lt (h p.right).0 in
    link-Linked (get_or syms p.right no_sym).next p.left _ next (
      get_or-set no_sym Placed _ p.right _ (h p.right)
        (get_or-set no_sym Placed syms p.left _ (next, (h p.left).1) h))

module _ {F : Type 0} (order : Order F) where
  abbrev pub InOrder : List (Pair F) → Type 0
  InOrder queue = All (λ p. p.left < p.right) queue

  abbrev PoppedInOrder : Option (Pair F × List (Pair F)) → Type 0
  PoppedInOrder none = Unit
  PoppedInOrder (some (p, rest)) = (p.left < p.right) × InOrder rest

  pop-InOrder : (queue : List (Pair F)) → InOrder queue → PoppedInOrder (pop order queue)
  unfolding pop
  pop-InOrder [] h = tt
  pop-InOrder (p ∷ queue) h = elim (Option-cases (pop order queue)) [
    | inl n ↦ rw (n, pop) (h.0, tt)
    | inr ((q, rest), n) ↦
        let best : PoppedInOrder (some (q, rest)) = rw n at (pop-InOrder queue h.1) in
        elim (Bool-cases (worse order p q)) [
          | inl w ↦ rw (n, w, pop) (best.0, (h.0, best.1))
          | inr w ↦ rw (n, w, pop) h
        ]
  ]

  abbrev Apart : Option ℕ → Option ℕ → Type 0
  Apart (some l) (some r) = l < r
  Apart _ _ = Unit

  prev-Apart : (o : Option ℕ) (i : ℕ) → PrevOk i o → Apart o (some i)
  prev-Apart none i h = tt
  prev-Apart (some j) i h = h

  next-Apart : (i : ℕ) (o : Option ℕ) → NextOk i o → Apart (some i) o
  next-Apart i none h = tt
  next-Apart i (some j) h = h

  module _ (t : Tokenizer F) (norm : Bytes) where
    try_pair-InOrder :
        (l r : Option ℕ) (syms : List Sym) (queue : List (Pair F))
        → Apart l r
        → InOrder queue
        → InOrder (try_pair order t norm l r syms queue)
    unfolding try_pair
    try_pair-InOrder none r syms queue a h = h
    try_pair-InOrder (some l) none syms queue a h = h
    try_pair-InOrder (some l) (some r) syms queue a h =
        found (last_index 0 t.tokens (substr norm (get_or syms l no_sym).start _))
      where
        found :
            (o : Option ℕ)
            → InOrder (elim o [
              | none ↦ queue
              | some id ↦
                  record {
                    left = l;
                    right = r;
                    score = get_or t.scores id order.nought;
                    size = (get_or syms l no_sym).len + (get_or syms r no_sym).len;
                  }
                  ∷ queue
            ])
        found none = h
        found (some id) = (a, h)

    pub first_pairs-InOrder :
        (n i : ℕ) (syms : List Sym) (queue : List (Pair F))
        → InOrder queue
        → InOrder (first_pairs order t norm n i syms queue)
    unfolding first_pairs
    first_pairs-InOrder zero i syms queue h = h
    first_pairs-InOrder (suc n) i syms queue h =
        first_pairs-InOrder n (suc i) syms _
          (try_pair-InOrder (some i) (some (suc i)) syms queue (omega arith) h)

    abbrev pub LinkedOut : Option (List Sym) → Type 0
    LinkedOut none = Unit
    LinkedOut (some out) = Linked out

    pub merge_loop-Linked :
        (f : ℕ) (queue : List (Pair F)) (syms : List Sym)
        → InOrder queue
        → Linked syms
        → LinkedOut (merge_loop order t norm f queue syms)
    unfolding merge_loop
    merge_loop-Linked zero queue syms q h = tt
    merge_loop-Linked (suc f) queue syms q h = elim (Option-cases (pop order queue)) [
      | inl n ↦ rw (n, merge_loop) h
      | inr ((p, rest), n) ↦
          let best : PoppedInOrder (some (p, rest)) = rw n at (pop-InOrder queue q) in
          elim (Bool-cases (stands p syms)) [
            | inl s ↦
                let syms' : List Sym = merge p syms in
                let l : Sym = get_or syms' p.left no_sym in
                let linked : Linked syms' = merge-Linked p syms best.0 h in
                let one =
                  try_pair-InOrder l.prev (some p.left) syms' rest
                    (prev-Apart l.prev p.left (linked p.left).1) best.1 in
                rw (n, s, merge_loop)
                  (merge_loop-Linked f _ syms'
                    (try_pair-InOrder (some p.left) l.next syms' _
                      (next-Apart p.left l.next (linked p.left).0) one)
                    linked)
            | inr s ↦ rw (n, s, merge_loop) (merge_loop-Linked f rest syms best.1 h)
          ]
    ]
