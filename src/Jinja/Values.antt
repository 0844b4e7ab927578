-- ===== src/Jinja/Values.antt =====
-- core/jinja.h and core/jinja.cpp: `Value`, with the types that a JSON text can have, and `get`.
use desiree_ia.Prelude.{ℕ, Bool, Option, none, some, Bytes, equal, if◌then◌else◌}

-- An `int` is a sign, true for a negative number, and a magnitude; a `float` is the text it was
-- read from. `Items` and `Fields` are the lists `Array` and `Object`.
mutual
  pub data Value : Type 0 where
    null : Value
    bool : Bool → Value
    int : Bool → ℕ → Value
    float : Bytes → Value
    str : Bytes → Value
    arr : Items → Value
    obj : Fields → Value

  pub data Items : Type 0 where
    no_items : Items
    item : Value → Items → Items

  pub data Fields : Type 0 where
    no_fields : Fields
    field : Bytes → Value → Fields → Fields

-- The loop of `Value::get` on an object; `none` is undefined.
unfoldable pub get : Bytes → Fields → Option Value
get key no_fields = none
get key (field k v fs) = if equal k key then some v else get key fs

-- What the standard library makes of the text of a floating-point number: `float_repr` or `null`,
-- and the sign and the magnitude of the number cut to an integer.
pub record Doubles : Type 0 where
  pub repr : Bytes → Bytes
  pub to_int : Bytes → Bool × ℕ
