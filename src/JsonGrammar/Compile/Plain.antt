-- ===== src/JsonGrammar/Compile/Plain.antt =====
-- core/json_grammar.cpp, `compile`: the schemas in which nothing is called "$ref".
use desiree_ia.Prelude.{
  Bool, true, false, Option, none, some, ◌≡◌, equal, Bool-cases, inl, inr, Bytes, codes,
}
use desiree_ia.Jinja.Values.{Value, Items, Fields, arr, obj, no_items, item, no_fields, field, get}
use desiree_ia.JsonGrammar.Compile.Schema.{with_type, typed}

-- With `free`, a key is not "$ref"; without, it is any.
abbrev pub KeyOk : Bool → Bytes → Type 0
KeyOk true k = equal k (codes "$ref") ≡ false
KeyOk false k = Unit

abbrev mutual
  pub Plain : Bool → Value → Type 0
  Plain free (arr xs) = PlainItems free xs
  Plain free (obj fs) = PlainFields free fs
  Plain free _ = Unit

  pub PlainItems : Bool → Items → Type 0
  PlainItems free no_items = Unit
  PlainItems free (item v xs) = Plain free v × PlainItems free xs

  pub PlainFields : Bool → Fields → Type 0
  PlainFields free no_fields = Unit
  PlainFields free (field k v fs) = KeyOk free k × Plain free v × PlainFields free fs

mutual
  pub all-Plain : (v : Value) → Plain false v
  all-Plain (arr xs) = all_items-Plain xs
  all-Plain (obj fs) = all_fields-Plain fs
  all-Plain _ = tt

  all_items-Plain : (xs : Items) → PlainItems false xs
  all_items-Plain no_items = tt
  all_items-Plain (item v xs) = (all-Plain v, all_items-Plain xs)

  all_fields-Plain : (fs : Fields) → PlainFields false fs
  all_fields-Plain no_fields = tt
  all_fields-Plain (field k v fs) = (tt, all-Plain v, all_fields-Plain fs)

abbrev pub PlainOption : Bool → Option Value → Type 0
PlainOption free none = Unit
PlainOption free (some v) = Plain free v

pub get-Plain :
    (free : Bool) (key : Bytes) (fs : Fields) → PlainFields free fs → PlainOption free (get key fs)
unfolding get
get-Plain free key no_fields h = tt
get-Plain free key (field k v fs) h = elim (Bool-cases (equal k key)) [
  | inl e ↦ rw (e, get) h.1
  | inr e ↦ rw (e, get) (get-Plain free key fs h.2)
]

-- A reference is found only where they are allowed.
abbrev pub NoRef : Bool → Option Value → Type 0
NoRef true (some v) = ⊥
NoRef _ _ = Unit

pub get-NoRef :
    (free : Bool) (fs : Fields) → PlainFields free fs → NoRef free (get (codes "$ref") fs)
unfolding get
get-NoRef true no_fields h = tt
get-NoRef true (field k v fs) h = rw (h.0, get) (get-NoRef true fs h.2)
get-NoRef false fs h = any (get (codes "$ref") fs)
  where
    any : (o : Option Value) → NoRef false o
    any none = tt
    any (some v) = tt

with_type-Plain :
    (free : Bool) (t : Value) (fs : Fields)
    → Plain free t
    → PlainFields free fs
    → PlainFields free (with_type t fs)
unfolding with_type
with_type-Plain free t no_fields p h = tt
with_type-Plain free t (field k v fs) p h = elim (Bool-cases (equal k (codes "type"))) [
  | inl e ↦ rw (e, with_type) (h.0, p, with_type-Plain free t fs p h.2)
  | inr e ↦ rw (e, with_type) (h.0, h.1, with_type-Plain free t fs p h.2)
]

pub typed-Plain :
    (free : Bool) (ts : Items) (fs : Fields)
    → PlainItems free ts
    → PlainFields free fs
    → PlainItems free (typed ts fs)
unfolding typed
typed-Plain free no_items fs p h = tt
typed-Plain free (item t ts) fs p h =
    (with_type-Plain free t fs p.0 h, typed-Plain free ts fs p.1 h)
