-- ===== src/DecisionJson/Readable.antt =====
-- models/decision_json.h: the values whose text `parse` reads back, and how that text begins and
-- ends.
use desiree_ia.Prelude.{
  ℕ, suc, ◌≤◌, true, false, [], ◌∷◌, ◌++◌, ◌≡◌, ◌≢◌, refl, leb, ◌==◌, Bytes, arith, All,
}
use desiree_ia.DecisionJson.Values.{
  Value, Items, Fields, bool, num, arr, obj, no_items, item, no_fields, field, Result,
}
use desiree_ia.DecisionJson.Writer.{write_value, write_items, write_fields}
use desiree_ia.DecisionJson.Text.{skip_ws, is_number_byte, number_bytes}
use desiree_ia.DecisionJson.Parser.{open_items}

-- The values that can be read back at a depth: no deeper than the parser goes, and numbers whose
-- text is one.
unfoldable mutual
  pub Readable : ℕ → Value → Type 0
  Readable d (num text) = (d ≤ 128) × (text ≢ []) × All (λ c. is_number_byte c ≡ true) text
  Readable d (arr xs) = (d ≤ 128) × ReadableItems (suc d) xs
  Readable d (obj fs) = (d ≤ 128) × ReadableFields (suc d) fs
  Readable d _ = d ≤ 128

  pub ReadableItems : ℕ → Items → Type 0
  ReadableItems d no_items = Unit
  ReadableItems d (item v xs) = Readable d v × ReadableItems d xs

  pub ReadableFields : ℕ → Fields → Type 0
  ReadableFields d no_fields = Unit
  ReadableFields d (field k v fs) = Readable d v × ReadableFields d fs

-- A number ends before the text.
abbrev pub Stops : Bytes → Type 0
Stops [] = Unit
Stops (c ∷ text) = is_number_byte c ≡ false

pub Readable-depth : (v : Value) (d : ℕ) → Readable d v → d ≤ 128
unfolding Readable
Readable-depth (num text) d h = h.0
Readable-depth (arr xs) d h = h.0
Readable-depth (obj fs) d h = h.0
Readable-depth _ d h = h

pub number_bytes-append :
    (text rest : Bytes)
    → All (λ c. is_number_byte c ≡ true) text
    → Stops rest
    → number_bytes (text ++ rest) ≡ (text, rest)
unfolding number_bytes
number_bytes-append [] [] a s = refl
number_bytes-append [] (c ∷ rest) a s = rw s refl
number_bytes-append (c ∷ text) rest a s = rw (a.0, number_bytes-append text rest a.1 s) refl

-- The first byte of a value that is written: no blank, and no closing bracket.
abbrev pub Begins : Bytes → Type 0
Begins [] = ⊥
Begins (c ∷ text) = (leb c b' ' ≡ false) × ((c == b']') ≡ false)

pub write_value-Begins :
    (v : Value) (d : ℕ) (rest : Bytes) → Readable d v → Begins (write_value v ++ rest)
unfolding write_value Readable
write_value-Begins (num []) d rest h = absurd (h.1 refl)
write_value-Begins (num (c ∷ text)) d rest h =
    let number : is_number_byte c ≡ true = h.2.0 in (ground arith, ground arith)
write_value-Begins (bool true) d rest h = (refl, refl)
write_value-Begins (bool false) d rest h = (refl, refl)
write_value-Begins _ d rest h = (refl, refl)

pub skip_ws-Begins : (text : Bytes) → Begins text → skip_ws text ≡ text
unfolding skip_ws
skip_ws-Begins [] b = refl
skip_ws-Begins (c ∷ text) b = rw b.0 refl

pub open_items-Begins :
    (items : Bytes → Result Items) (text : Bytes) → Begins text → open_items items text ≡ items text
unfolding open_items
open_items-Begins items [] b = refl
open_items-Begins items (c ∷ text) b = rw b.1 refl

pub write_items-Stops : (xs : Items) (rest : Bytes) → Stops (write_items false xs ++ rest)
unfolding write_items
write_items-Stops no_items rest = refl
write_items-Stops (item v xs) rest = refl

pub write_fields-Stops : (fs : Fields) (rest : Bytes) → Stops (write_fields false fs ++ rest)
unfolding write_fields
write_fields-Stops no_fields rest = refl
write_fields-Stops (field k v fs) rest = refl
