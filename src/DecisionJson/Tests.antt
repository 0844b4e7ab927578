-- ===== src/DecisionJson/Tests.antt =====
-- models/decision_json.h: the parser and the writer on given texts.
use desiree_ia.Prelude.{true, [], ◌∷◌, is_prefix, ◌≡◌, refl, codes, arith}
use desiree_ia.DecisionJson.Values.{
  Value, null, bool, num, str, arr, obj, no_items, item, no_fields, field, ok, failed,
}
use desiree_ia.DecisionJson.Writer.{write_value}
use desiree_ia.DecisionJson.Parser.{parse, parse_value, parse_items, parse_fields}
use desiree_ia.DecisionJson.Readable.{Readable}
use desiree_ia.DecisionJson.RoundTrip.{parse-write_value}
use desiree_ia.DecisionJson.Ends.{parse-ne-stuck}
use desiree_ia.DecisionJson.Values.{stuck}
use desiree_ia.Prelude.{◌≢◌}

-- `{"n": [1, "\n", true], "m": null}`
abbrev state : Value
state = obj (
    field (codes "n")
      (arr (item (num (codes "1")) (item (str (10 ∷ [])) (item (bool true) no_items))))
      (field (codes "m") null no_fields))

parse-write_value_example : parse (write_value state) ≡ ok state []
parse-write_value_example = parse-write_value state (
    unfold Readable in
    (
      omega arith,
      (
        (omega arith, ((omega arith, (λ e. cc), (refl, tt)), (omega arith, (omega arith, tt)))),
        (omega arith, tt),
      ),
    ))

parse-ne-stuck_example : parse (codes "[[1, {") ≢ stuck
parse-ne-stuck_example = parse-ne-stuck (codes "[[1, {")

-- Blanks go, escapes are read, and what follows the value fails.
parse_blanks :
    parse (codes " [ 1 ,\"\\u00e9\" ] ")
    ≡ ok (arr (item (num (codes "1")) (item (str (195 ∷ 169 ∷ [])) no_items))) []
unfolding parse parse_value parse_items parse_fields is_prefix
parse_blanks = refl

parse_trailing : parse (codes "1 2") ≡ failed
unfolding parse parse_value parse_items parse_fields is_prefix
parse_trailing = refl
