-- ===== src/ToolGrammar/Tests.antt =====
-- core/tool_grammar.cpp at concrete tags and names.
use desiree_ia.Prelude.{
  true, false, some, List, [], ◌∷◌, ◌++◌, ◌≡◌, refl, arith, inl, Bytes, codes, equal, is_prefix,
  ◌&&◌,
}
use desiree_ia.ToolGrammar.{
  json, finished, string, number, colon, State, Config, initial, step, step_fuel, step_phase,
  step_mode, name_prefix_ok, any_name, after_value, text_name,
}
use desiree_ia.ToolGrammar.Accept.{
  run, reset, accept, accept_all, allows, constraining, configured, give_up,
}
use desiree_ia.ToolGrammar.Fuel.{step_fuel-step}
use desiree_ia.ToolGrammar.Split.{allows-append}
use desiree_ia.ToolGrammar.Canonical.{opened, closed, run_canonical}
use desiree_ia.ToolGrammar.Gaps.{run_escaped_key, run_number, accept_after_give_up}

abbrev config : Config
config = record {
  open_tag = codes "<tool>";
  close_tag = codes "</tool>";
  names = codes "get" ∷ codes "set" ∷ [];
}

abbrev call : List Bytes
call = codes "hi <to" ∷ codes "ol>{\"name\"" ∷ codes ": \"set\"" ∷ codes "}" ∷ []

call_named : (accept_all config reset call).name ≡ codes "set"
unfolding accept_all accept run step step_phase step_mode name_prefix_ok any_name after_value equal
    is_prefix reset
call_named = refl

abbrev begun : List Bytes
begun = codes "<tool>{\"name" ∷ []

begun_constraining : constraining (accept_all config reset begun) ≡ true
unfolding accept_all accept run step step_phase step_mode name_prefix_ok any_name after_value equal
    is_prefix reset constraining
begun_constraining = refl

not_other_name : allows config (accept_all config reset begun) (codes "\":\"put\"") false ≡ false
unfolding accept_all accept run step step_phase step_mode name_prefix_ok any_name after_value equal
    is_prefix reset allows
not_other_name = refl

on : configured config ≡ true
unfolding configured
on = refl

step_fuel-step_example : step_fuel (λ s. some s) 7 config opened b'{' ≡ step config opened b'{'
step_fuel-step_example = step_fuel-step (λ s. some s) 5 config opened b'{'

allows-append_example :
    allows config (accept_all config reset begun) (codes "\":" ++ codes "\"ge") false ≡ (
      allows config (accept_all config reset begun) (codes "\":") false
      && allows config
          (accept config (accept_all config reset begun) (codes "\":"))
          (codes "\"ge")
          false)
allows-append_example =
    allows-append config begun (codes "\":") (codes "\"ge") on begun_constraining (λ e. cc)
      (λ e. cc)

run_canonical_example :
    run config opened (
      codes "{\"name\": \""
      ++ (codes "get" ++ (codes "\", \"arguments\": {}}" ++ config.close_tag)))
    ≡ some (closed (codes "get") finished 7)
run_canonical_example = run_canonical config (codes "get") (inl refl) (omega arith) refl

abbrev name_key : State
name_key = record initial {
  phase = json;
  started = true;
  mode = string;
  stack = b'{' ∷ [];
  in_key = true;
  key = text_name;
}

run_escaped_key_example :
    run config name_key (b'\\' ∷ b'n' ∷ b'"' ∷ []) ≡ some (record name_key { mode = colon })
run_escaped_key_example =
    run_escaped_key config name_key b'n'
      (record {
        in_json = refl;
        begun = refl;
        in_string = refl;
        outermost = refl;
        of_key = refl;
        no_name = refl;
        no_escape = refl;
        no_hex = refl;
        reads = refl;
      })
      refl

abbrev in_number : State
in_number = record initial { phase = json; started = true; mode = number; stack = b'{' ∷ [] }

run_digits : run config in_number (codes "1.2.3e+-") ≡ some in_number
run_digits =
    run_number config in_number (codes "1.2.3e+-") refl refl refl
      (refl, (refl, (refl, (refl, (refl, (refl, (refl, (refl, tt))))))))

armed_again : accept config give_up (codes "<tool>") ≡ opened
armed_again = accept_after_give_up config (λ e. cc)
