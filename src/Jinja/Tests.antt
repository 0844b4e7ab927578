-- ===== src/Jinja/Tests.antt =====
-- core/jinja.cpp: the parser and the writer on given texts.
use desiree_ia.Prelude.{true, false, [], ◌≡◌, ◌≢◌, refl, codes, is_prefix}
use desiree_ia.DecisionJson.Values.{ok, stuck}
use desiree_ia.Jinja.Values.{
  Value, null, int, float, arr, obj, no_items, item, no_fields, field, Doubles,
}
use desiree_ia.Jinja.Parser.{parse_json, parse_value, parse_items, parse_fields}
use desiree_ia.Jinja.Writer.{to_json_sep}
use desiree_ia.DecisionJson.Writer.{write_bytes}
use desiree_ia.Jinja.Ends.{parse_json-ne-stuck}

parse_json-ne-stuck_example : parse_json (codes "{\"a\": [1, {") ≢ stuck
parse_json-ne-stuck_example = parse_json-ne-stuck (codes "{\"a\": [1, {")

abbrev doubles : Doubles
doubles = record { repr = λ text. text; to_int = λ text. (false, 0) }

abbrev document : Value
document = obj (
    field (codes "a") (arr (item (int true 12) (item (float (codes "1.5")) (item null no_items))))
      no_fields)

parse_document : parse_json (codes " {\"a\" : [-12, 1.5, null ]}") ≡ ok document []
unfolding parse_json parse_value parse_items parse_fields is_prefix
parse_document = refl

write_document :
    to_json_sep doubles (codes ", ") (codes ": ") document ≡ codes "{\"a\": [-12, 1.5, null]}"
unfolding to_json_sep write_bytes
write_document = refl
