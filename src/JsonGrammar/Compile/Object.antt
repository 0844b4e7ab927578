-- ===== src/JsonGrammar/Compile/Object.antt =====
-- core/json_grammar.cpp, `compile` of a schema of objects.
use desiree_ia.Prelude.{
  ℕ, Bool, true, false, not, ◌||◌, Option, none, some, List, [], ◌∷◌, ◌++◌, map, length, ltb,
  is_empty, equal, if◌then◌else◌, Bytes, codes,
}
use desiree_ia.Jinja.Values.{
  Items, Fields, bool, str, arr, obj, no_items, item, no_fields, field, get,
}
use desiree_ia.DecisionJson.Writer.{write_bytes}
use desiree_ia.JsonGrammar.{object, Node, any_node}
use desiree_ia.JsonGrammar.Compile.Builder.{
  Builder, Outcome, ok, err, then_do, too_many, Compiler, add_node, update,
}
use desiree_ia.JsonGrammar.Compile.Order.{sort_by}

-- The JSON text of a key less its quotes.
abbrev pub enc : Bytes → Bytes
enc k = write_bytes k

-- The texts of the list `required`.
unfoldable pub strings : Items → List Bytes
strings no_items = []
strings (item (str r) xs) = r ∷ strings xs
strings (item v xs) = strings xs

unfoldable pub required_of : Fields → List Bytes
unfolding strings get
required_of fs = elim (get (codes "required") fs) [
  | some (arr xs) ↦ strings xs
  | some v ↦ []
  | none ↦ []
]

abbrev pub Props : Type 0
Props = List (Bytes × ℕ)

-- The loop over `properties`.
unfoldable pub compile_fields : Compiler → Fields → Builder → Outcome Props
compile_fields go no_fields b = ok [] b
compile_fields go (field k v fs) b =
    then_do (go v b)
      (λ c b1. then_do (compile_fields go fs b1) (λ props b2. ok ((enc k, c) ∷ props) b2))

unfoldable pub compile_props : Compiler → Fields → Builder → Outcome Props
unfolding compile_fields get
compile_props go fs b = elim (get (codes "properties") fs) [
  | some (obj ps) ↦ compile_fields go ps b
  | some v ↦ ok [] b
  | none ↦ ok [] b
]

abbrev pub is_listed : Bytes → Props → Bool
is_listed e [] = false
is_listed e ((k, c) ∷ props) = equal k e || is_listed e props

-- The loop over `required`: a key that is not listed takes any value.
unfoldable pub add_required : List Bytes → Props → Builder → Outcome Props
unfolding add_node
add_required [] props b = ok props b
add_required (r ∷ required) props b =
    if is_listed (enc r) props
    then add_required required props b
    else then_do (add_node any_node b) (λ c b1. add_required required (props ++ (enc r, c) ∷ []) b1)

abbrev pub is_required : List Bytes → Bytes → Bool
is_required [] key = false
is_required (r ∷ required) key = equal (enc r) key || is_required required key

-- `extra_ok` and `extra_node`.
unfoldable pub compile_extra : Compiler → Fields → Bool → Builder → Outcome (Bool × Option ℕ)
unfolding get
compile_extra go fs has_props b = elim (get (codes "additionalProperties") fs) [
  | some (bool t) ↦ ok (t, none) b
  | some (obj ps) ↦ then_do (go (obj ps) b) (λ c b1. ok (true, some c) b1)
  | some v ↦ ok (not has_props, none) b
  | none ↦ ok (not has_props, none) b
]

-- The node, from the sorted properties.
abbrev pub object_node : List Bytes → Props → Bool × Option ℕ → Node → Node
object_node required props extra n = record n {
  keys = map (λ p. p.0) props;
  prop = map (λ p. p.1) props;
  req_mask = map (λ p. is_required required p.0) props;
  extra_ok = extra.0;
  extra_node = extra.1;
}

unfoldable pub compile_object : Compiler → Fields → Builder → Outcome ℕ
unfolding add_node compile_props required_of add_required sort_by compile_extra update
compile_object go fs b = then_do (add_node (record any_node { kind = object }) b) (λ idx b1.
    then_do (compile_props go fs b1) (λ own b2.
      then_do (add_required (required_of fs) own b2) (λ props b3.
        if ltb 64 (length props)
        then err too_many
        else then_do (compile_extra go fs (not (is_empty props)) b3) (λ extra b4.
          ok idx (update idx (object_node (required_of fs) (sort_by (λ p. p.0) props) extra) b4)))))
