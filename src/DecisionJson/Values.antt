-- ===== src/DecisionJson/Values.antt =====
-- models/decision_json.h: `Value`, and the results of the parser's functions.
use desiree_ia.Prelude.{Bool, Option, none, some, Bytes, equal, if◌then◌else◌}

-- A value; `Items` and `Fields` are the lists `arr` and `obj`.
mutual
  pub data Value : Type 0 where
    null : Value
    bool : Bool → Value
    num : Bytes → Value
    str : Bytes → Value
    arr : Items → Value
    obj : Fields → Value

  pub data Items : Type 0 where
    no_items : Items
    item : Value → Items → Items

  pub data Fields : Type 0 where
    no_fields : Fields
    field : Bytes → Value → Fields → Fields

-- `Value::find` on the fields of an object.
unfoldable pub find : Bytes → Fields → Option Value
find key no_fields = none
find key (field k v fs) = if equal k key then some v else find key fs

-- A function that returns true with what it read and the rest, one that returns false, and one
-- whose bound is met.
pub data Result {ℓ} (A : Type ℓ) : Type ℓ where
  ok : A → Bytes → Result A
  failed stuck : Result A

abbrev pub bind {ℓ κ} : {A : Type ℓ} {B : Type κ} → Result A → (A → Bytes → Result B) → Result B
bind (ok a rest) k = k a rest
bind failed k = failed
bind stuck k = stuck
