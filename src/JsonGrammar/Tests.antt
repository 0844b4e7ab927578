-- ===== src/JsonGrammar/Tests.antt =====
-- core/json_grammar.cpp at a schema of an object with a number and a short list.
use desiree_ia.Prelude.{
  ◌<◌, length, get_elem?, get_or, ℕ, zero, suc, Bool, true, false, ◌||◌, none, some, List, [], ◌∷◌,
  ◌++◌, ◌≡◌, refl, arith, leb, ◌==◌, if◌then◌else◌, Bytes, codes,
}
use desiree_ia.JsonGrammar.{
  object, array, string, number, integer, lits, union, Node, any_node, Grammar, node_at, blank,
  in_number, int, in_object, ObjectState, set_bit, covers, any_free, narrow,
}
use desiree_ia.JsonGrammar.Start.{start_alts, start_number, start_kind, start_value}
use desiree_ia.JsonGrammar.Member.{
  find_key, number_next, key_start, step_open, end_key, leave_keys, step_key, step_colon,
  step_comma, step_object, step_number, is_opened, is_integer,
}
use desiree_ia.JsonGrammar.Step.{step_value, turn, step_rounds, step}
use desiree_ia.JsonGrammar.Constraint.{
  State, start, reset, advance_from, advance, run_piece, allows, accept, accept_all, constraining,
}
use desiree_ia.JsonGrammar.Returns.{Returns, Falls, IsRanked, start_value_diverges}
use desiree_ia.JsonGrammar.Bounds.{IsSound}
use desiree_ia.JsonGrammar.Reached.{SoundCfgs, reached-Sound}
use desiree_ia.JsonGrammar.Total.{generation-Sound}
use desiree_ia.JsonGrammar.Trie.{build, is_included, mask}
use desiree_ia.JsonGrammar.Trie.Masked.{mask-allows}
use desiree_ia.JsonGrammar.Rounds.{step_rounds-step}
use desiree_ia.JsonGrammar.Split.{allows_in_turn, allows-append_in_turn}

abbrev root : Node
root = record any_node {
  kind = object;
  keys = codes "n" ∷ codes "l" ∷ [];
  prop = 7 ∷ 9 ∷ [];
  req_mask = true ∷ [];
}

abbrev grammar : Grammar
grammar = record {
  nodes =
      record any_node { kind = object; extra_ok = true; extra_node = some 5 }
      ∷ record any_node { kind = array; items = some 5 }
      ∷ record any_node { kind = string }
      ∷ record any_node { kind = lits; texts = codes "true" ∷ codes "false" ∷ codes "null" ∷ [] }
      ∷ record any_node { kind = number }
      ∷ any_node
      ∷ root
      ∷ record any_node { kind = union; alts = 8 ∷ 2 ∷ [] }
      ∷ record any_node { kind = integer }
      ∷ record any_node { kind = array; items = some 8; max_items = some 2 }
      ∷ [];
  root = 6;
  any_obj = 0;
  any_arr = 1;
  any_str = 2;
  any_lits = 3;
  any_num = 4;
  any_value = 5;
}

abbrev rank : ℕ → ℕ
rank i = if i == 5 || i == 7 || leb 10 i then 1 else 0

falls : (i : ℕ) → Falls rank grammar i (node_at grammar i).kind
falls zero = tt
falls (suc zero) = tt
falls (suc (suc zero)) = tt
falls (suc (suc (suc zero))) = tt
falls (suc (suc (suc (suc zero)))) = tt
falls (suc (suc (suc (suc (suc zero))))) =
    (omega arith, omega arith, omega arith, omega arith, omega arith)
falls (suc (suc (suc (suc (suc (suc zero)))))) = tt
falls (suc (suc (suc (suc (suc (suc (suc zero))))))) = (omega arith, (omega arith, tt))
falls (suc (suc (suc (suc (suc (suc (suc (suc zero)))))))) = tt
falls (suc (suc (suc (suc (suc (suc (suc (suc (suc zero))))))))) = tt
falls (suc (suc (suc (suc (suc (suc (suc (suc (suc (suc i)))))))))) = ground arith

ranked : IsRanked grammar rank 2
ranked = record { falls = falls; below = λ i. ground arith }

abbrev begun : List Bytes
begun = codes "{\"n\"" ∷ codes ": 1" ∷ []

generation-Sound_example :
    (s : State) × (accept_all 2 grammar (reset grammar) begun ≡ some s)
    × SoundCfgs grammar s.cfgs
    × ((piece : Bytes) (is_eog : Bool) → Returns (allows 2 grammar s piece is_eog))
generation-Sound_example = generation-Sound grammar ranked begun

-- The tokens leave one configuration, in a number that may end.
abbrev reached : State
reached = record {
  cfgs =
      record { stack = in_number 8 int ∷ in_object 6 (true ∷ []) ObjectState.comma ∷ []; ws = 0 }
      ∷ [];
  gave_up = false;
}

begun_reached : accept_all 2 grammar (reset grammar) begun ≡ some reached
unfolding accept_all accept run_piece advance advance_from step step_rounds turn step_object
    step_value step_open end_key leave_keys step_key step_colon step_comma step_number number_next
    start_value start_kind start_alts start_number key_start is_opened find_key is_integer reset
    narrow set_bit covers any_free blank
begun_reached = refl

reached-Sound_example : SoundCfgs grammar reached.cfgs
reached-Sound_example = reached-Sound 2 grammar begun reached begun_reached

reached-constraining : constraining grammar reached ≡ true
unfolding constraining
reached-constraining = refl

allows-append_in_turn_example :
    allows 2 grammar reached (codes "2" ++ codes ",\"l\":[1") false
    ≡ allows_in_turn 2 grammar reached (codes "2") (codes ",\"l\":[1")
allows-append_in_turn_example =
    allows-append_in_turn 2 grammar reached (codes "2") (codes ",\"l\":[1") reached-constraining
      (λ e. cc) (λ e. cc)

start-IsSound : IsSound grammar (start grammar)
start-IsSound = record { stacked = (tt, tt, omega arith); blanks = omega arith }

step_rounds-step_example :
    step_rounds 2 grammar none 3 (start grammar) b'{' ≡ step 2 grammar (start grammar) b'{'
step_rounds-step_example = step_rounds-step 2 grammar b'{' none 1 (start grammar) start-IsSound

-- What `{"anyOf": [{"$ref": "#"}, {"type": "null"}]}` compiles to.
abbrev looping : Grammar
looping = record grammar {
  nodes = record any_node { kind = union; alts = 0 ∷ 1 ∷ [] } ∷ [];
  root = 0;
}

start_value_diverges_example :
    start_value 1000 looping (record { stack = []; ws = 0 }) 0 b'n' ≡ none
start_value_diverges_example =
    start_value_diverges 1000 looping (record { stack = []; ws = 0 }) 0 b'n' (1 ∷ []) refl refl
      (omega arith)

abbrev vocabulary : List Bytes
vocabulary = codes "2" ∷ codes ",\"l\":" ∷ codes "x" ∷ codes "2}" ∷ []

mask-allows_example :
    (keep : List Bool) × (mask 2 grammar reached
        (build vocabulary [])
        (false ∷ false ∷ false ∷ false ∷ [])
      ≡ some keep)
    × (length keep ≡ 4)
    × ((j x : ℕ) (w : Bytes)
        → get_elem? vocabulary j ≡ some (x ∷ w)
        → is_included [] j ≡ true
        → get_or (false ∷ false ∷ false ∷ false ∷ []) j false ≡ false
        → allows 2 grammar reached (x ∷ w) false ≡ some (get_or keep j false))
    × ((j : ℕ)
        → j < 4
        → is_included [] j ≡ false
        → get_or keep j false ≡ get_or (false ∷ false ∷ false ∷ false ∷ []) j false)
mask-allows_example =
    mask-allows grammar ranked reached vocabulary [] (false ∷ false ∷ false ∷ false ∷ [])
      reached-constraining (omega arith)
