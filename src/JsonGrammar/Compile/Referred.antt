-- ===== src/JsonGrammar/Compile/Referred.antt =====
-- core/json_grammar.cpp, `compile`: what is kept in order by a reference.
use desiree_ia.Prelude.{
  ℕ, ◌≤◌, ◌<◌, false, Option, none, some, List, [], ◌∷◌, length, get_or, arith, All, Bool-cases,
  inl, inr, drop, is_prefix, equal, Bytes, codes,
}
use desiree_ia.Jinja.Values.{Value}
use desiree_ia.JsonGrammar.{any, Node, any_node}
use desiree_ia.JsonGrammar.Compile.Plain.{Plain, all-Plain}
use desiree_ia.JsonGrammar.Compile.Builder.{
  ref_not_found, Builder, ok, err, Compiler, then_do, add_node, update, find_memo,
}
use desiree_ia.JsonGrammar.Compile.Built.{
  Inside, IsNode, IsBuilt, Post, Lands, Added, then_do-Post, bare-IsNode, add_node-Post,
  update-Post, Goes,
}
use desiree_ia.JsonGrammar.Compile.Schema.{resolve, target, compile_ref}

find_memo-Inside :
    (len : ℕ) (r : Bytes) (memo : List (Bytes × ℕ))
    → All (λ p. p.1 < len) memo
    → Inside len (find_memo r memo)
unfolding find_memo
find_memo-Inside len r [] h = tt
find_memo-Inside len r ((k, idx) ∷ memo) h = elim (Bool-cases (equal k r)) [
  | inl e ↦ rw (e, find_memo) h.0
  | inr e ↦ rw (e, find_memo) (find_memo-Inside len r memo h.1)
]

-- The copy of a node.
copied-IsNode : (len i j : ℕ) (n : Node) → IsNode false len i n → IsNode false len j n
copied-IsNode len i j n q = record {
  alts = q.alts;
  prop = q.prop;
  extra = q.extra;
  items = q.items;
  keys = q.keys;
  req = q.req;
  most = q.most;
  ascends = q.ascends;
  rises = q.rises;
}

target-Post :
    (r : Bytes) (root : Value) (b : Builder)
    → IsBuilt false b
    → Post false (length b.nodes) (λ v len. Plain false v) (target r root b)
unfolding target
target-Post r root b h = elim (Bool-cases (equal r (codes "#"))) [
  | inl e ↦ rw e (h, omega arith, all-Plain root)
  | inr e ↦ rw e (elim (Bool-cases (is_prefix (codes "#/") r)) [
    | inl pre ↦ rw pre (there (resolve [] (drop 2 r) root))
    | inr pre ↦ rw pre tt
  ])
]
  where
    there :
        (o : Option Value)
        → Post false
            (length b.nodes)
            (λ v len. Plain false v)
            (elim o [ none ↦ err ref_not_found | some v ↦ ok v b ])
    there none = tt
    there (some v) = (h, omega arith, all-Plain v)

module _ (go : Compiler) (goes : Goes false go) where
  pub compile_ref-Post :
      (root : Value) (r : Bytes) (b : Builder)
      → IsBuilt false b
      → Post false (length b.nodes) (Lands false (length b.nodes)) (compile_ref go root r b)
  unfolding compile_ref
  compile_ref-Post root r b h = found (find_memo r b.memo) (find_memo-Inside _ r b.memo h.memo)
    where
      old : ℕ
      old = length b.nodes

      found :
          (o : Option ℕ)
          → Inside old o
          → Post false old (Lands false old) (elim o [
            | some idx ↦ ok idx b
            | none ↦ then_do (target r root b) (λ v b1. then_do (add_node any_node b1) (λ idx b2.
                then_do
                  (go v (record b2 { memo = (r, idx) ∷ b2.memo }))
                  (λ body b3. ok idx (update idx (λ n. get_or b3.nodes body any_node) b3))))
          ])
      found (some idx) i = (h, omega arith, (tt, i))
      found none i =
          then_do-Post false old old (λ v len. Plain false v) (Lands false old) (target r root b) _
            (omega arith) (target-Post r root b h)
            (λ v b1 h1 le1 r1.
              then_do-Post false old (length b1.nodes) (Added (length b1.nodes)) (Lands false old)
                (add_node any_node b1) _ le1
                (add_node-Post false any_node b1 (bare-IsNode false _ _ any 0 none 0 none) h1)
                (λ idx b2 h2 le2 r2.
                  body v idx b2 (omega arith) (omega (arith, le2, r2.0)) (omega (arith, r2.1)) r1
                    h2))
        where
          body :
              (v : Value) (idx : ℕ) (b2 : Builder)
              → old ≤ length b2.nodes
              → old ≤ idx
              → idx < length b2.nodes
              → Plain false v
              → IsBuilt false b2
              → Post false old (Lands false old) (
                  then_do
                    (go v (record b2 { memo = (r, idx) ∷ b2.memo }))
                    (λ body b3. ok idx (update idx (λ n. get_or b3.nodes body any_node) b3)))
          body v idx b2 le2 le lt p h2 =
              let b' : Builder = record b2 { memo = (r, idx) ∷ b2.memo } in
              let h' : IsBuilt false b' = record {
                nodes = h2.nodes;
                memo = (lt, h2.memo);
                least = h2.least;
                generic = h2.generic;
              } in
              then_do-Post false old (length b2.nodes) (Lands false (length b2.nodes))
                (Lands false old) (go v b') _ le2 (goes v b' p h')
                (λ j b3 h3 le3 r3.
                  update-Post false old idx (λ n. get_or b3.nodes j any_node) b3 h.least le
                    (omega arith)
                    (λ q.
                      copied-IsNode (length b3.nodes) j idx (get_or b3.nodes j any_node)
                        (h3.nodes j))
                    h3)
