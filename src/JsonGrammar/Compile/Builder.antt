-- ===== src/JsonGrammar/Compile/Builder.antt =====
-- core/json_grammar.cpp: `nodes_` and `ref_memo_` while a schema is compiled, `add_node` and
-- `lits_node`. The error texts are the constructors of `Error`.
use desiree_ia.Prelude.{
  ℕ, Option, none, some, List, [], ◌∷◌, ◌++◌, length, get_or, set, equal, if◌then◌else◌, Bytes,
}
use desiree_ia.Jinja.Values.{Value}
use desiree_ia.JsonGrammar.{lits, Node, any_node}
use desiree_ia.JsonGrammar.Compile.Order.{sort, sort_by, unique}

pub data Error : Type 0 where
  too_deep accepts_nothing no_schema bad_ref ref_not_found empty_enum empty_any several_all : Error
  empty_type too_many unknown_type bad_json : Error

pub record Builder : Type 0 where
  pub nodes : List Node
  pub memo : List (Bytes × ℕ)

-- A call returns a result, or -1 with an error; the nodes are thrown away then.
pub data Outcome (A : Type 0) : Type 0 where
  ok : A → Builder → Outcome A
  err : Error → Outcome A

abbrev pub then_do : {A B : Type 0} → Outcome A → (A → Builder → Outcome B) → Outcome B
then_do (ok a b) k = k a b
then_do (err e) k = err e

-- `compile` at the next depth.
abbrev pub Compiler : Type 0
Compiler = Value → Builder → Outcome ℕ

unfoldable pub add_node : Node → Builder → Outcome ℕ
add_node n b = ok (length b.nodes) (record b { nodes = b.nodes ++ n ∷ [] })

unfoldable pub lits_node : List Bytes → Builder → Outcome ℕ
unfolding add_node sort_by unique
lits_node texts b = add_node (record any_node { kind = lits; texts = unique (sort texts) }) b

-- A change of `nodes_[idx]`.
unfoldable pub update : ℕ → (Node → Node) → Builder → Builder
update idx f b = record b { nodes = set b.nodes idx (f (get_or b.nodes idx any_node)) }

unfoldable pub find_memo : Bytes → List (Bytes × ℕ) → Option ℕ
find_memo r [] = none
find_memo r ((k, idx) ∷ memo) = if equal k r then some idx else find_memo r memo
