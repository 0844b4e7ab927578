-- ===== src/JsonGrammar/Compile/Configure.antt =====
-- core/json_grammar.cpp, `configure`. `off` is an empty text, which turns the constraint off.
use desiree_ia.Prelude.{ℕ, true, ◌||◌, List, [], ◌∷◌, equal, if◌then◌else◌, Bytes, codes}
use desiree_ia.DecisionJson.Values.{Result, ok, failed, stuck}
use desiree_ia.Jinja.Values.{Value, Doubles}
use desiree_ia.Jinja.Parser.{parse_json}
use desiree_ia.JsonGrammar.{object, array, string, number, lits, Node, any_node, Grammar, is_ws}
use desiree_ia.JsonGrammar.Compile.Builder.{
  Error, bad_json, Builder, Outcome, err, lits_node, add_node,
}
use desiree_ia.JsonGrammar.Compile.Builder
use desiree_ia.JsonGrammar.Compile.Order.{sort, sort_by, unique}
use desiree_ia.JsonGrammar.Compile.Schema.{compile}

pub data Configured : Type 0 where
  off : Configured
  on : Grammar → Configured
  refused : Error → Configured

unfoldable pub skip_blanks : Bytes → Bytes
skip_blanks [] = []
skip_blanks (c ∷ text) = if is_ws c then skip_blanks text else c ∷ text

-- The nodes that every "any value" position uses, at the indices 0 to 5.
unfoldable pub generic_nodes : List Node
unfolding sort_by unique
generic_nodes =
    record any_node { kind = object; extra_ok = true }
    ∷ record any_node { kind = array }
    ∷ record any_node { kind = string }
    ∷ record any_node {
      kind = lits;
      texts = unique (sort (codes "false" ∷ codes "null" ∷ codes "true" ∷ []));
    }
    ∷ record any_node { kind = number }
    ∷ any_node
    ∷ []

unfoldable pub grammar_of : Outcome ℕ → Configured
grammar_of (err e) = refused e
grammar_of (Builder.ok root b) = on (record {
  nodes = b.nodes;
  root = root;
  any_obj = 0;
  any_arr = 1;
  any_str = 2;
  any_lits = 3;
  any_num = 4;
  any_value = 5;
})

-- The levels are those of the depths 0 to 40.
unfoldable pub compile_text : Doubles → Result Value → Configured
unfolding compile grammar_of generic_nodes
compile_text doubles failed = refused bad_json
compile_text doubles stuck = refused bad_json
compile_text doubles (ok schema rest) =
    grammar_of (compile doubles 41 schema schema (record { nodes = generic_nodes; memo = [] }))

unfoldable pub configure : Doubles → Bytes → Configured
unfolding skip_blanks grammar_of generic_nodes add_node parse_json compile_text
configure doubles schema_json = elim (skip_blanks schema_json) [
  | [] ↦ off
  | c ∷ text ↦
      if equal (c ∷ text) (codes "json") || equal (c ∷ text) (codes "true")
      then grammar_of (add_node any_node (record { nodes = generic_nodes; memo = [] }))
      else compile_text doubles (parse_json (c ∷ text))
]
