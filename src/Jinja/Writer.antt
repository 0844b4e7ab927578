-- ===== src/Jinja/Writer.antt =====
-- core/jinja.cpp: `to_json_sep` on one line, and `json_string`, which has the code of `write_string`
-- of models/decision_json.h.
use desiree_ia.Prelude.{ℕ, Bool, true, false, [], ◌∷◌, ◌++◌, if◌then◌else◌, Bytes}
use desiree_ia.Prelude.Decimal.{digits}
use desiree_ia.DecisionJson.Writer.{write_string}
use desiree_ia.Jinja.Values.{
  Value, Items, Fields, null, bool, int, float, str, arr, obj, no_items, item, no_fields, field,
  Doubles,
}

-- `std::to_string` of a 64-bit integer.
unfoldable pub int_text : Bool → ℕ → Bytes
unfolding digits
int_text true n = b'-' ∷ digits 20 n
int_text false n = digits 20 n

abbrev pub json_string : Bytes → Bytes
json_string = write_string

module _ (doubles : Doubles) (item_sep key_sep : Bytes) where
  unfoldable mutual
    unfolding int_text

    pub to_json_sep : Value → Bytes
    to_json_sep null = b'n' ∷ b'u' ∷ b'l' ∷ b'l' ∷ []
    to_json_sep (bool true) = b't' ∷ b'r' ∷ b'u' ∷ b'e' ∷ []
    to_json_sep (bool false) = b'f' ∷ b'a' ∷ b'l' ∷ b's' ∷ b'e' ∷ []
    to_json_sep (int negative n) = int_text negative n
    to_json_sep (float text) = doubles.repr text
    to_json_sep (str s) = json_string s
    to_json_sep (arr xs) = b'[' ∷ items_json true xs
    to_json_sep (obj fs) = b'{' ∷ fields_json true fs

    -- The loop over the items and the closing bracket, which an empty array has at once.
    pub items_json : Bool → Items → Bytes
    items_json first no_items = b']' ∷ []
    items_json first (item v xs) =
        (if first then [] else item_sep) ++ (to_json_sep v ++ items_json false xs)

    pub fields_json : Bool → Fields → Bytes
    fields_json first no_fields = b'}' ∷ []
    fields_json first (field k v fs) =
        (if first then [] else item_sep)
        ++ (json_string k ++ (key_sep ++ (to_json_sep v ++ fields_json false fs)))
