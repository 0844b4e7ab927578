-- ===== src/JsonGrammar/Compile/Shaped.antt =====
-- core/json_grammar.cpp, `compile`: what is kept in order by the parts that make no object.
use desiree_ia.Prelude.{
  ℕ, ◌≤◌, ◌<◌, Bool, true, false, Option, none, some, List, [], ◌∷◌, length, is_empty, refl, arith,
  All, if◌then◌else◌, Bytes, codes,
}
use desiree_ia.Jinja.Values.{
  Value, Items, Fields, null, bool, int, float, str, arr, obj, no_items, item, get, Doubles,
}
use desiree_ia.JsonGrammar.{array, lits, union, Node, any_node}
use desiree_ia.JsonGrammar.Compile.Order.{sort, unique}
use desiree_ia.JsonGrammar.Compile.Sorted.{unique-sort-Rises}
use desiree_ia.JsonGrammar.Compile.Plain.{Plain, PlainItems, PlainFields, PlainOption, get-Plain}
use desiree_ia.JsonGrammar.Compile.Builder.{
  Error, Builder, ok, err, Compiler, then_do, add_node, lits_node, update,
}
use desiree_ia.JsonGrammar.Compile.Built.{
  Behind, New, IsBuilt, Post, Lands, Added, newer, then_do-Post, bare-IsNode, add_node-Post,
  added-Lands, update-Post, Goes,
}
use desiree_ia.JsonGrammar.Compile.Schema.{
  compile_alts, compile_union, compile_items, compile_array, least, limit,
}

pub lits_node-Post :
    (free : Bool) (texts : List Bytes) (b : Builder)
    → IsBuilt free b
    → Post free (length b.nodes) (Lands free (length b.nodes)) (lits_node texts b)
unfolding lits_node
lits_node-Post free texts b h =
    added-Lands free (record any_node { kind = lits; texts = unique (sort texts) }) b
      (record {
        alts = tt;
        prop = tt;
        extra = tt;
        items = tt;
        keys = refl;
        req = refl;
        most = omega arith;
        ascends = tt;
        rises = unique-sort-Rises texts;
      })
      h

-- Alternatives that may stand behind the node `i`.
abbrev pub Alts : Bool → ℕ → List ℕ → ℕ → Type 0
Alts free i alts len = All (λ j. Behind free i j × (j < len)) alts

module _ (free : Bool) (go : Compiler) (goes : Goes free go) where
  -- The alternatives stand behind any node that is there before.
  compile_alts-Post :
      (i : ℕ) (xs : Items) (b : Builder)
      → i < length b.nodes
      → PlainItems free xs
      → IsBuilt free b
      → Post free (length b.nodes) (Alts free i) (compile_alts go xs b)
  unfolding compile_alts
  compile_alts-Post i no_items b lt p h = (h, omega arith, tt)
  compile_alts-Post i (item v xs) b lt p h =
      then_do-Post free (length b.nodes) (length b.nodes) (Lands free (length b.nodes))
        (Alts free i) (go v b) _ (omega arith) (goes v b p.0 h)
        (λ a b1 h1 le1 r1.
          then_do-Post free (length b.nodes) (length b1.nodes) (Alts free i) (Alts free i)
            (compile_alts go xs b1) _ le1 (compile_alts-Post i xs b1 (omega arith) p.1 h1)
            (λ alts b2 h2 le2 r2. (
              h2,
              omega arith,
              ((behind free (length b.nodes) a lt r1.0, omega (arith, r1.1)), r2),
            )))
    where
      behind : (free' : Bool) (old a : ℕ) → i < old → New free' old a → Behind free' i a
      behind true old a lt' n = omega arith
      behind false old a lt' n = tt

  union-Post :
      (old idx : ℕ) (alts : List ℕ) (e : Error) (b : Builder)
      → 6 ≤ old
      → old ≤ idx
      → idx < length b.nodes
      → Alts free idx alts (length b.nodes)
      → IsBuilt free b
      → Post free old
          (Lands free old)
          (if is_empty alts then err e else ok idx (update idx (λ n. record n { alts = alts }) b))
  union-Post old idx [] e b six le lt r h = tt
  union-Post old idx (a ∷ alts) e b six le lt r h =
      update-Post free old idx (λ n. record n { alts = a ∷ alts }) b six le lt
        (λ q. record {
          alts = r;
          prop = q.prop;
          extra = q.extra;
          items = q.items;
          keys = q.keys;
          req = q.req;
          most = q.most;
          ascends = q.ascends;
          rises = q.rises;
        })
        h

  pub compile_union-Post :
      (xs : Items) (e : Error) (b : Builder)
      → PlainItems free xs
      → IsBuilt free b
      → Post free (length b.nodes) (Lands free (length b.nodes)) (compile_union go xs e b)
  unfolding compile_union
  compile_union-Post xs e b p h =
      then_do-Post free (length b.nodes) (length b.nodes) (Added (length b.nodes))
        (Lands free (length b.nodes)) (add_node (record any_node { kind = union }) b) _
        (omega arith)
        (add_node-Post free (record any_node { kind = union }) b
          (bare-IsNode free _ _ union 0 none 0 none) h)
        (λ idx b1 h1 le1 r1.
          then_do-Post free (length b.nodes) (length b1.nodes) (Alts free idx)
            (Lands free (length b.nodes)) (compile_alts go xs b1) _ le1
            (compile_alts-Post idx xs b1 (omega (arith, r1.1)) p h1)
            (λ alts b2 h2 le2 r2.
              union-Post (length b.nodes) idx alts e b2 h.least (omega (arith, r1.0))
                (omega (arith, r1.1)) r2 h2))

  pub compile_items-Post :
      (doubles : Doubles) (old : ℕ) (o : Option Value) (idx : ℕ) (b : Builder)
      → 6 ≤ old
      → old ≤ idx
      → idx < length b.nodes
      → PlainOption free o
      → IsBuilt free b
      → Post free old (Lands free old) (compile_items doubles go o idx b)
  unfolding compile_items
  compile_items-Post doubles old o idx b six le lt p h = items o p
    where
      stays : Post free old (Lands free old) (ok idx b)
      stays = (h, omega arith, (newer free old idx le, lt))

      set_items :
          (v : Value)
          → Plain free v
          → Post free old
              (Lands free old)
              (then_do (go v b) (λ c b1. ok idx (update idx (λ n. record n { items = some c }) b1)))
      set_items v q =
          then_do-Post free old (length b.nodes) (Lands free (length b.nodes)) (Lands free old)
            (go v b) _ (omega arith) (goes v b q h)
            (λ c b1 h1 le1 r1.
              update-Post free old idx (λ n. record n { items = some c }) b1 six le (omega arith)
                (λ q1. record {
                  alts = q1.alts;
                  prop = q1.prop;
                  extra = q1.extra;
                  items = r1.1;
                  keys = q1.keys;
                  req = q1.req;
                  most = q1.most;
                  ascends = q1.ascends;
                  rises = q1.rises;
                })
                h1)

      items :
          (o' : Option Value)
          → PlainOption free o'
          → Post free old (Lands free old) (compile_items doubles go o' idx b)
      items (some (obj fs)) q = set_items (obj fs) q
      items (some (bool t)) q = set_items (bool t) q
      items (some null) q = stays
      items (some (int s n)) q = stays
      items (some (float t)) q = stays
      items (some (str t)) q = stays
      items (some (arr xs)) q = stays
      items none q = stays

  pub compile_array-Post :
      (doubles : Doubles) (fs : Fields) (b : Builder)
      → PlainFields free fs
      → IsBuilt free b
      → Post free (length b.nodes) (Lands free (length b.nodes)) (compile_array doubles go fs b)
  unfolding compile_array
  compile_array-Post doubles fs b p h =
      let n : Node = record any_node {
        kind = array;
        min_items = least doubles (limit doubles (codes "minItems") fs);
        max_items = limit doubles (codes "maxItems") fs;
      } in
      then_do-Post free (length b.nodes) (length b.nodes) (Added (length b.nodes))
        (Lands free (length b.nodes)) (add_node n b) _ (omega arith)
        (add_node-Post free n b (bare-IsNode free _ _ array _ _ 0 none) h)
        (λ idx b1 h1 le1 r1.
          compile_items-Post doubles (length b.nodes) (get (codes "items") fs) idx b1 h.least
            (omega (arith, r1.0)) (omega (arith, r1.1)) (get-Plain free (codes "items") fs p) h1)
