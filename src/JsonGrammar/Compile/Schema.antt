-- ===== src/JsonGrammar/Compile/Schema.antt =====
-- core/json_grammar.cpp, `compile`. It ends with an error at a depth of 41, so that the levels that
-- are left bound its recursion.
use desiree_ia.Prelude.{
  ℕ, zero, suc, ◌-◌, ◌%◌, ◌^◌, Bool, true, false, not, ◌||◌, Option, none, some, List, [], ◌∷◌,
  ◌++◌, drop, get_or, is_empty, ltb, ◌==◌, equal, is_prefix, if◌then◌else◌, Bytes, codes,
}
use desiree_ia.Jinja.Values.{
  Value, Items, Fields, bool, int, float, str, arr, obj, no_items, item, no_fields, field, get,
  Doubles,
}
use desiree_ia.Jinja.Writer.{to_json_sep}
use desiree_ia.JsonGrammar.{array, string, number, integer, union, any_node}
use desiree_ia.JsonGrammar.Compile.Builder.{
  Error, too_deep, accepts_nothing, no_schema, bad_ref, ref_not_found, empty_enum, empty_any,
  several_all, empty_type, unknown_type, Builder, Outcome, ok, err, then_do, Compiler, add_node,
  lits_node, update, find_memo,
}
use desiree_ia.JsonGrammar.Compile.Object.{compile_object}

-- `Value::get` on any value.
unfoldable pub member : Bytes → Value → Option Value
unfolding get
member key (obj fs) = get key fs
member key v = none

-- The loop over the parts of a reference, of which `part` is begun.
unfoldable pub resolve : Bytes → Bytes → Value → Option Value
unfolding member
resolve part [] cur = member part cur
resolve part (c ∷ r) cur =
    if c == b'/'
    then elim (member part cur) [ none ↦ none | some next ↦ resolve [] r next ]
    else resolve (part ++ c ∷ []) r cur

-- What a reference refers to.
unfoldable pub target : Bytes → Value → Builder → Outcome Value
unfolding resolve
target r root b =
    if equal r (codes "#")
    then ok root b
    else if not (is_prefix (codes "#/") r)
    then err bad_ref
    else elim (resolve [] (drop 2 r) root) [ none ↦ err ref_not_found | some v ↦ ok v b ]

-- The node of a reference is there before what it refers to is compiled.
unfoldable pub compile_ref : Compiler → Value → Bytes → Builder → Outcome ℕ
unfolding find_memo target add_node update
compile_ref go root r b = elim (find_memo r b.memo) [
  | some idx ↦ ok idx b
  | none ↦ then_do (target r root b) (λ v b1. then_do (add_node any_node b1) (λ idx b2.
      then_do (go v (record b2 { memo = (r, idx) ∷ b2.memo }))
        (λ body b3. ok idx (update idx (λ n. get_or b3.nodes body any_node) b3))))
]

-- The loops over alternatives.
unfoldable pub compile_alts : Compiler → Items → Builder → Outcome (List ℕ)
compile_alts go no_items b = ok [] b
compile_alts go (item v xs) b =
    then_do (go v b) (λ a b1. then_do (compile_alts go xs b1) (λ alts b2. ok (a ∷ alts) b2))

unfoldable pub compile_union : Compiler → Items → Error → Builder → Outcome ℕ
unfolding add_node compile_alts update
compile_union go xs e b = then_do (add_node (record any_node { kind = union }) b) (λ idx b1.
    then_do (compile_alts go xs b1) (λ alts b2.
      if is_empty alts then err e else ok idx (update idx (λ n. record n { alts = alts }) b2)))

-- A copy of the schema with one of its types, for each of them.
unfoldable pub with_type : Value → Fields → Fields
with_type t no_fields = no_fields
with_type t (field k v fs) = field k (if equal k (codes "type") then t else v) (with_type t fs)

unfoldable pub typed : Items → Fields → Items
unfolding with_type
typed no_items fs = no_items
typed (item t ts) fs = item (obj (with_type t fs)) (typed ts fs)

-- `static_cast<int>` of a 64-bit integer, where a negative result is `none`.
abbrev pub to_int : Bool × ℕ → Option ℕ
to_int (negative, n) =
    let w = if negative then (2 ^ 32 - n % 2 ^ 32) % 2 ^ 32 else n % 2 ^ 32 in
    if ltb w (2 ^ 31) then some w else none

module _ (doubles : Doubles) where
  abbrev pub compact : Value → Bytes
  compact v = to_json_sep doubles (codes ",") (codes ":") v

  -- A limit that is a number; `none` is negative, or the default of -1.
  unfoldable pub limit : Bytes → Fields → Option ℕ
  unfolding get
  limit key fs = elim (get key fs) [
    | some (int negative n) ↦ to_int (negative, n)
    | some (float text) ↦ to_int (doubles.to_int text)
    | some v ↦ none
    | none ↦ none
  ]

  abbrev pub least : Option ℕ → ℕ
  least o = elim o [ none ↦ 0 | some n ↦ n ]

  unfoldable pub texts_of : Items → List Bytes
  unfolding to_json_sep
  texts_of no_items = []
  texts_of (item v xs) = compact v ∷ texts_of xs

  unfoldable pub compile_enum : Items → Builder → Outcome ℕ
  unfolding texts_of lits_node
  compile_enum no_items b = err empty_enum
  compile_enum (item v xs) b = lits_node (texts_of (item v xs)) b

  -- Of `items`, an object or a Boolean is compiled.
  unfoldable pub compile_items : Compiler → Option Value → ℕ → Builder → Outcome ℕ
  unfolding update
  compile_items go (some (obj fs)) idx b =
      then_do (go (obj fs) b) (λ c b1. ok idx (update idx (λ n. record n { items = some c }) b1))
  compile_items go (some (bool t)) idx b =
      then_do (go (bool t) b) (λ c b1. ok idx (update idx (λ n. record n { items = some c }) b1))
  compile_items go v idx b = ok idx b

  unfoldable pub compile_array : Compiler → Fields → Builder → Outcome ℕ
  unfolding add_node limit compile_items get
  compile_array go fs b =
      then_do
        (add_node
          (record any_node {
            kind = array;
            min_items = least (limit (codes "minItems") fs);
            max_items = limit (codes "maxItems") fs;
          })
          b)
        (λ idx b1. compile_items go (get (codes "items") fs) idx b1)

  unfoldable pub compile_string : Fields → Builder → Outcome ℕ
  unfolding add_node limit
  compile_string fs b =
      add_node
        (record any_node {
          kind = string;
          min_len = least (limit (codes "minLength") fs);
          max_len = limit (codes "maxLength") fs;
        })
        b

  -- The type, by its name.
  unfoldable pub compile_name : Compiler → Fields → Bytes → Builder → Outcome ℕ
  unfolding lits_node add_node compile_string compile_array compile_object
  compile_name go fs t b =
      if equal t (codes "null")
      then lits_node (codes "null" ∷ []) b
      else if equal t (codes "boolean")
      then lits_node (codes "false" ∷ codes "true" ∷ []) b
      else if equal t (codes "number")
      then add_node (record any_node { kind = number }) b
      else if equal t (codes "integer")
      then add_node (record any_node { kind = integer }) b
      else if equal t (codes "string")
      then compile_string fs b
      else if equal t (codes "array")
      then compile_array go fs b
      else if equal t (codes "object")
      then compile_object go fs b
      else err unknown_type

  abbrev pub is_there : Bytes → Fields → Bool
  is_there key fs = elim (get key fs) [ none ↦ false | some v ↦ true ]

  -- Without a type, the type that the other members call for.
  unfoldable pub compile_untyped : Compiler → Fields → Builder → Outcome ℕ
  unfolding compile_name add_node get
  compile_untyped go fs b =
      if is_there (codes "properties") fs || is_there (codes "required") fs
      then compile_name go fs (codes "object") b
      else if is_there (codes "items") fs
      then compile_name go fs (codes "array") b
      else add_node any_node b

  unfoldable pub compile_type : Compiler → Fields → Option Value → Builder → Outcome ℕ
  unfolding compile_union typed compile_name compile_untyped
  compile_type go fs (some (arr ts)) b = compile_union go (typed ts fs) empty_type b
  compile_type go fs (some (str [])) b = compile_untyped go fs b
  compile_type go fs (some (str (c ∷ t))) b = compile_name go fs (c ∷ t) b
  compile_type go fs t b = compile_untyped go fs b

  -- `allOf` has to have one schema.
  unfoldable pub compile_all : Compiler → Fields → Option Value → Builder → Outcome ℕ
  unfolding compile_type get
  compile_all go fs (some (arr (item v no_items))) b = go v b
  compile_all go fs (some (arr xs)) b = err several_all
  compile_all go fs v b = compile_type go fs (get (codes "type") fs) b

  -- `anyOf` before `oneOf`.
  unfoldable pub compile_any : Compiler → Fields → Option Value → Option Value → Builder → Outcome ℕ
  unfolding compile_union compile_all get
  compile_any go fs (some (arr xs)) one b = compile_union go xs empty_any b
  compile_any go fs v (some (arr xs)) b = compile_union go xs empty_any b
  compile_any go fs v one b = compile_all go fs (get (codes "allOf") fs) b

  unfoldable pub compile_const : Compiler → Fields → Option Value → Builder → Outcome ℕ
  unfolding lits_node to_json_sep compile_any get
  compile_const go fs (some v) b = lits_node (compact v ∷ []) b
  compile_const go fs none b = compile_any go fs (get (codes "anyOf") fs) (get (codes "oneOf") fs) b

  unfoldable pub compile_values : Compiler → Fields → Option Value → Builder → Outcome ℕ
  unfolding compile_enum compile_const get
  compile_values go fs (some (arr xs)) b = compile_enum xs b
  compile_values go fs v b = compile_const go fs (get (codes "const") fs) b

  unfoldable pub compile_fields_of : Compiler → Value → Fields → Option Value → Builder → Outcome ℕ
  unfolding compile_ref compile_values get
  compile_fields_of go root fs (some (str r)) b = compile_ref go root r b
  compile_fields_of go root fs v b = compile_values go fs (get (codes "enum") fs) b

  unfoldable pub compile : ℕ → Value → Value → Builder → Outcome ℕ
  unfolding compile_fields_of add_node get
  compile zero root s b = err too_deep
  compile (suc levels) root (bool false) b = err accepts_nothing
  compile (suc levels) root (bool true) b = add_node any_node b
  compile (suc levels) root (obj fs) b =
      compile_fields_of (compile levels root) root fs (get (codes "$ref") fs) b
  compile (suc levels) root s b = err no_schema
