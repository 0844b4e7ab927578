-- ===== src/JsonGrammar/Compile/Tests.antt =====
-- core/json_grammar.cpp, `configure` on given schemas.
use desiree_ia.Prelude.{
  suc, Bool, false, some, [], ◌∷◌, ◌≡◌, refl, length, Bytes, codes, equal, is_prefix,
}
use desiree_ia.Jinja.Values.{Doubles}
use desiree_ia.Jinja.Parser.{parse_json, parse_value, parse_items, parse_fields}
use desiree_ia.JsonGrammar.{Grammar, node_at}
use desiree_ia.DecisionJson.Writer.{write_bytes}
use desiree_ia.JsonGrammar.Constraint.{State, reset, allows, accept_all}
use desiree_ia.JsonGrammar.Returns.{Returns}
use desiree_ia.JsonGrammar.Reached.{SoundCfgs}
use desiree_ia.JsonGrammar.Compile.Builder.{bad_json, ref_not_found}
use desiree_ia.JsonGrammar.Compile.Configure.{Configured, off, on, refused, configure}
use desiree_ia.JsonGrammar.Compile.Formed.{IsFormed, configure-IsFormed}
use desiree_ia.JsonGrammar.Compile.Ranked.{configured-Sound}

abbrev doubles : Doubles
doubles = record { repr = λ text. text; to_int = λ text. (false, 0) }

abbrev made : Configured → Grammar
made (on g) = g
made _ = record {
  nodes = [];
  root = 0;
  any_obj = 0;
  any_arr = 1;
  any_str = 2;
  any_lits = 3;
  any_num = 4;
  any_value = 5;
}

-- An object with a required number and a list.
abbrev schema : Bytes
schema =
    codes
      "{\"properties\": {\"n\": {\"type\": [\"number\", \"null\"]}, \"l\": {\"items\": {}}}, \"required\": [\"n\", \"c\"]}"

schema_on : configure doubles schema ≡ on (made (configure doubles schema))
unfolding configure parse_json parse_value parse_items parse_fields equal is_prefix write_bytes
schema_on = refl

configure-IsFormed_example : IsFormed false (made (configure doubles schema))
configure-IsFormed_example =
    configure-IsFormed doubles schema (made (configure doubles schema)) schema_on

-- A choice of a string and any value.
abbrev choice : Bytes
choice = codes " {\"anyOf\": [{\"type\": \"string\"}, {}]}"

abbrev choice_grammar : Grammar
choice_grammar = made (configure doubles choice)

choice_on : configure doubles choice ≡ on choice_grammar
unfolding configure parse_json parse_value parse_items parse_fields equal is_prefix write_bytes
choice_on = refl

configured-Sound_example :
    (s : State) × (accept_all
        (suc (suc (length choice_grammar.nodes)))
        choice_grammar
        (reset choice_grammar)
        (codes "\"a" ∷ codes "\"" ∷ [])
      ≡ some s)
    × SoundCfgs choice_grammar s.cfgs
    × ((piece : Bytes) (is_eog : Bool)
        → Returns (allows (suc (suc (length choice_grammar.nodes))) choice_grammar s piece is_eog))
unfolding configure parse_json parse_value parse_items parse_fields equal is_prefix write_bytes
configured-Sound_example =
    configured-Sound doubles choice choice_grammar (codes "\"a" ∷ codes "\"" ∷ [])
      (refl, ((refl, tt, tt), (tt, tt)), tt) choice_on

-- A reference to the union that it stands in makes a union that is its own first alternative.
own_alternative :
    (node_at (made (configure doubles (codes "{\"anyOf\": [{\"$ref\": \"#\"}]}"))) 7).alts ≡ 7 ∷ []
unfolding configure parse_json parse_value parse_items parse_fields equal is_prefix write_bytes
own_alternative = refl

configure_blank : configure doubles (codes " \n") ≡ off
unfolding configure
configure_blank = refl

configure_bad : configure doubles (codes "{\"type\"") ≡ refused bad_json
unfolding configure parse_json parse_value parse_items parse_fields equal is_prefix write_bytes
configure_bad = refl

configure_lost : configure doubles (codes "{\"$ref\": \"#/x\"}") ≡ refused ref_not_found
unfolding configure parse_json parse_value parse_items parse_fields equal is_prefix write_bytes
configure_lost = refl
