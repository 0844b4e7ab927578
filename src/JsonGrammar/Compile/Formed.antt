-- ===== src/JsonGrammar/Compile/Formed.antt =====
-- core/json_grammar.cpp, `configure`: the grammars it makes.
use desiree_ia.Prelude.{
  ℕ, zero, suc, ◌<◌, Bool, false, ◌||◌, [], ◌∷◌, length, get_or, take, none, equal, ◌≡◌, refl,
  arith, Bool-cases, inl, inr, if◌then◌else◌, Bytes, codes,
}
use desiree_ia.DecisionJson.Values.{Result, ok, failed, stuck}
use desiree_ia.Jinja.Values.{Value, Doubles}
use desiree_ia.Jinja.Parser.{parse_json}
use desiree_ia.JsonGrammar.{any, array, string, number, any_node, Grammar, node_at}
use desiree_ia.JsonGrammar.Compile.Builder.{Builder, Outcome, err, add_node}
use desiree_ia.JsonGrammar.Compile.Builder
use desiree_ia.JsonGrammar.Compile.Configure.{
  Configured, off, on, skip_blanks, generic_nodes, grammar_of, compile_text, configure,
}
use desiree_ia.JsonGrammar.Compile.Sorted.{unique-sort-Rises}
use desiree_ia.JsonGrammar.Compile.Plain.{Plain, all-Plain}
use desiree_ia.JsonGrammar.Compile.Built.{IsNode, IsBuilt, Post, Lands, bare-IsNode, added-Lands}
use desiree_ia.JsonGrammar.Compile.Typed.{compile-Post}

-- Every index in a node is that of a node, its lists fit together, and the "any value" nodes are
-- the first ones.
pub record IsFormed (free : Bool) (g : Grammar) : Type 0 where
  pub nodes : (i : ℕ) → IsNode free (length g.nodes) i (node_at g i)
  pub root : g.root < length g.nodes
  pub generic : take 6 g.nodes ≡ generic_nodes
  pub any_obj : g.any_obj ≡ 0
  pub any_arr : g.any_arr ≡ 1
  pub any_str : g.any_str ≡ 2
  pub any_lits : g.any_lits ≡ 3
  pub any_num : g.any_num ≡ 4
  pub any_value : g.any_value ≡ 5

abbrev pub Forms : Bool → Configured → Type 0
Forms free (on g) = IsFormed free g
Forms free _ = Unit

-- The schema of a text, where there is one.
abbrev pub PlainText : Bool → Result Value → Type 0
PlainText free (ok schema rest) = Plain free schema
PlainText free _ = Unit

all-PlainText : (r : Result Value) → PlainText false r
all-PlainText (ok schema rest) = all-Plain schema
all-PlainText _ = tt

grammar_of-Forms :
    (free : Bool) (o : Outcome ℕ) (old : ℕ)
    → Post free old (Lands free old) o
    → Forms free (grammar_of o)
unfolding grammar_of
grammar_of-Forms free (err e) old h = tt
grammar_of-Forms free (Builder.ok root b) old h = record {
  nodes = h.0.nodes;
  root = h.2.1;
  generic = h.0.generic;
  any_obj = refl;
  any_arr = refl;
  any_str = refl;
  any_lits = refl;
  any_num = refl;
  any_value = refl;
}

abbrev fresh : Builder
unfolding generic_nodes
fresh = record { nodes = generic_nodes; memo = [] }

generic-IsNode : (free : Bool) (i : ℕ) → IsNode free 6 i (get_or generic_nodes i any_node)
unfolding generic_nodes
generic-IsNode free zero = record {
  alts = tt;
  prop = tt;
  extra = tt;
  items = tt;
  keys = refl;
  req = refl;
  most = omega arith;
  ascends = tt;
  rises = tt;
}
generic-IsNode free (suc zero) = bare-IsNode free 6 1 array 0 none 0 none
generic-IsNode free (suc (suc zero)) = bare-IsNode free 6 2 string 0 none 0 none
generic-IsNode free (suc (suc (suc zero))) = record {
  alts = tt;
  prop = tt;
  extra = tt;
  items = tt;
  keys = refl;
  req = refl;
  most = omega arith;
  ascends = tt;
  rises = unique-sort-Rises (codes "false" ∷ codes "null" ∷ codes "true" ∷ []);
}
generic-IsNode free (suc (suc (suc (suc zero)))) = bare-IsNode free 6 4 number 0 none 0 none
generic-IsNode free (suc (suc (suc (suc (suc zero))))) = bare-IsNode free 6 5 any 0 none 0 none
generic-IsNode free (suc (suc (suc (suc (suc (suc i)))))) = bare-IsNode free 6 _ any 0 none 0 none

fresh-IsBuilt : (free : Bool) → IsBuilt free fresh
unfolding generic_nodes
fresh-IsBuilt free = record {
  nodes = generic-IsNode free;
  memo = tt;
  least = omega arith;
  generic = refl;
}

module _ (free : Bool) (doubles : Doubles) where
  compile_text-Forms : (r : Result Value) → PlainText free r → Forms free (compile_text doubles r)
  unfolding compile_text
  compile_text-Forms failed p = tt
  compile_text-Forms stuck p = tt
  compile_text-Forms (ok schema rest) p =
      grammar_of-Forms free _ _
        (compile-Post free doubles 41 schema schema fresh p (fresh-IsBuilt free))

  pub configure-Forms :
      (text : Bytes)
      → PlainText free (parse_json (skip_blanks text))
      → Forms free (configure doubles text)
  unfolding configure
  configure-Forms text p = blanks (skip_blanks text) p
    where
      blanks :
          (t : Bytes)
          → PlainText free (parse_json t)
          → Forms free (elim t [
            | [] ↦ off
            | c ∷ rest ↦
                if equal (c ∷ rest) (codes "json") || equal (c ∷ rest) (codes "true")
                then grammar_of (add_node any_node (record { nodes = generic_nodes; memo = [] }))
                else compile_text doubles (parse_json (c ∷ rest))
          ])
      blanks [] q = tt
      blanks (c ∷ rest) q =
          elim (Bool-cases (equal (c ∷ rest) (codes "json") || equal (c ∷ rest) (codes "true"))) [
            | inl e ↦ rw e (
                grammar_of-Forms free (add_node any_node fresh) 6 (
                  added-Lands free any_node fresh (bare-IsNode free 7 6 any 0 none 0 none)
                    (fresh-IsBuilt free)))
            | inr e ↦ rw e (compile_text-Forms (parse_json (c ∷ rest)) q)
          ]

-- Whatever the text of the schema, a grammar that `configure` makes has no index out of range:
-- its root, the alternatives, members, items and further values of its nodes are all nodes. The
-- keys of a node, its members and its bits for the required ones are as many, at most 64; the keys
-- ascend; and the literals ascend, each of them once. The six "any value" nodes are the first.
pub configure-IsFormed :
    (doubles : Doubles) (text : Bytes) (g : Grammar)
    → configure doubles text ≡ on g
    → IsFormed false g
configure-IsFormed doubles text g e =
    rw e at (configure-Forms false doubles text (all-PlainText (parse_json (skip_blanks text))))
