-- ===== src/JsonGrammar/Compile/Typed.antt =====
-- core/json_grammar.cpp, `compile`: what is kept in order by a whole call.
use desiree_ia.Prelude.{
  ℕ, zero, suc, Bool, true, false, ◌||◌, Option, none, some, [], ◌∷◌, length, equal, if◌then◌else◌,
  Bytes, codes,
}
use desiree_ia.Jinja.Values.{
  Value, Items, Fields, bool, str, arr, obj, no_items, item, get, Doubles,
}
use desiree_ia.JsonGrammar.{string, number, integer, any, any_node}
use desiree_ia.JsonGrammar.Compile.Plain.{
  PlainFields, PlainOption, get-Plain, NoRef, get-NoRef, typed-Plain,
}
use desiree_ia.JsonGrammar.Compile.Builder.{
  empty_type, empty_any, Builder, Outcome, Compiler, add_node,
}
use desiree_ia.JsonGrammar.Compile.Schema.{
  typed, limit, least, texts_of, compile_enum, compile_string, compile_name, is_there,
  compile_untyped, compile_type, compile_all, compile_any, compile_const, compile_values,
  compile_fields_of, compile, compact,
}
use desiree_ia.JsonGrammar.Compile.Built.{IsBuilt, Post, Lands, bare-IsNode, added-Lands, Goes}
use desiree_ia.JsonGrammar.Compile.Shaped.{lits_node-Post, compile_union-Post, compile_array-Post}
use desiree_ia.JsonGrammar.Compile.Referred.{compile_ref-Post}
use desiree_ia.JsonGrammar.Compile.Members.{compile_object-Post}

-- What a call on these nodes promises.
abbrev pub Compiles : Bool → (Builder → Outcome ℕ) → Type 0
Compiles free call =
    (b : Builder)
    → IsBuilt free b
    → Post free (length b.nodes) (Lands free (length b.nodes)) (call b)

if-Compiles :
    (free t : Bool) (call other : Builder → Outcome ℕ)
    → Compiles free call
    → Compiles free other
    → Compiles free (λ b. if t then call b else other b)
if-Compiles free true call other c o b h = c b h
if-Compiles free false call other c o b h = o b h

module _ (free : Bool) (doubles : Doubles) where
  compile_string-Post : (fs : Fields) → Compiles free (compile_string doubles fs)
  unfolding compile_string
  compile_string-Post fs b h =
      added-Lands free
        (record any_node {
          kind = string;
          min_len = least doubles (limit doubles (codes "minLength") fs);
          max_len = limit doubles (codes "maxLength") fs;
        })
        b (bare-IsNode free _ _ string 0 none _ _) h

  any-Post : Compiles free (add_node any_node)
  any-Post b h = added-Lands free any_node b (bare-IsNode free _ _ any 0 none 0 none) h

  compile_enum-Post : (xs : Items) → Compiles free (compile_enum doubles xs)
  unfolding compile_enum
  compile_enum-Post no_items b h = tt
  compile_enum-Post (item v xs) b h = lits_node-Post free (texts_of doubles (item v xs)) b h

  module _ (go : Compiler) (goes : Goes free go) where
    compile_name-Post :
        (fs : Fields) (t : Bytes)
        → PlainFields free fs
        → Compiles free (compile_name doubles go fs t)
    unfolding compile_name
    compile_name-Post fs t p =
        if-Compiles free (equal t (codes "null")) _ _ (lits_node-Post free (codes "null" ∷ [])) (
          if-Compiles free (equal t (codes "boolean")) _ _
            (lits_node-Post free (codes "false" ∷ codes "true" ∷ []))
            (if-Compiles free (equal t (codes "number")) _ _
              (λ b h.
                added-Lands free (record any_node { kind = number }) b
                  (bare-IsNode free _ _ number 0 none 0 none) h)
              (if-Compiles free (equal t (codes "integer")) _ _
                (λ b h.
                  added-Lands free (record any_node { kind = integer }) b
                    (bare-IsNode free _ _ integer 0 none 0 none) h)
                (if-Compiles free (equal t (codes "string")) _ _ (compile_string-Post fs) (
                  if-Compiles free (equal t (codes "array")) _ _
                    (λ b h. compile_array-Post free go goes doubles fs b p h)
                    (if-Compiles free (equal t (codes "object")) _ _
                      (λ b h. compile_object-Post free go goes fs b p h) (λ b h. tt)))))))

    compile_untyped-Post :
        (fs : Fields) → PlainFields free fs → Compiles free (compile_untyped doubles go fs)
    unfolding compile_untyped
    compile_untyped-Post fs p =
        if-Compiles free
          (is_there doubles (codes "properties") fs || is_there doubles (codes "required") fs) _ _
          (compile_name-Post fs (codes "object") p)
          (if-Compiles free (is_there doubles (codes "items") fs) _ _
            (compile_name-Post fs (codes "array") p) any-Post)

    compile_type-Post :
        (fs : Fields) (o : Option Value)
        → PlainFields free fs
        → PlainOption free o
        → Compiles free (compile_type doubles go fs o)
    unfolding compile_type
    compile_type-Post fs (some (arr ts)) p q b h =
        compile_union-Post free go goes (typed ts fs) empty_type b (typed-Plain free ts fs q p) h
    compile_type-Post fs (some (str [])) p q b h = compile_untyped-Post fs p b h
    compile_type-Post fs (some (str (c ∷ t))) p q b h = compile_name-Post fs (c ∷ t) p b h
    compile_type-Post fs (some _) p q b h = compile_untyped-Post fs p b h
    compile_type-Post fs none p q b h = compile_untyped-Post fs p b h

    compile_all-Post :
        (fs : Fields) (o : Option Value)
        → PlainFields free fs
        → PlainOption free o
        → Compiles free (compile_all doubles go fs o)
    unfolding compile_all
    compile_all-Post fs (some (arr (item v no_items))) p q b h = goes v b q.0 h
    compile_all-Post fs (some (arr (item v (item w xs)))) p q b h = tt
    compile_all-Post fs (some (arr no_items)) p q b h = tt
    compile_all-Post fs (some _) p q b h =
        compile_type-Post fs (get (codes "type") fs) p (get-Plain free _ fs p) b h
    compile_all-Post fs none p q b h =
        compile_type-Post fs (get (codes "type") fs) p (get-Plain free _ fs p) b h

    compile_one-Post :
        (fs : Fields) (o : Option Value)
        → PlainFields free fs
        → PlainOption free o
        → Compiles free (compile_any doubles go fs none o)
    unfolding compile_any
    compile_one-Post fs (some (arr xs)) p q b h = compile_union-Post free go goes xs empty_any b q h
    compile_one-Post fs (some _) p q b h =
        compile_all-Post fs (get (codes "allOf") fs) p (get-Plain free _ fs p) b h
    compile_one-Post fs none p q b h =
        compile_all-Post fs (get (codes "allOf") fs) p (get-Plain free _ fs p) b h

    compile_any-Post :
        (fs : Fields) (o one : Option Value)
        → PlainFields free fs
        → PlainOption free o
        → PlainOption free one
        → Compiles free (compile_any doubles go fs o one)
    unfolding compile_any
    compile_any-Post fs (some (arr xs)) one p q r b h =
        compile_union-Post free go goes xs empty_any b q h
    compile_any-Post fs (some _) one p q r b h = compile_one-Post fs one p r b h
    compile_any-Post fs none one p q r b h = compile_one-Post fs one p r b h

    compile_const-Post :
        (fs : Fields) (o : Option Value)
        → PlainFields free fs
        → Compiles free (compile_const doubles go fs o)
    unfolding compile_const
    compile_const-Post fs (some v) p b h = lits_node-Post free (compact doubles v ∷ []) b h
    compile_const-Post fs none p b h =
        compile_any-Post fs (get (codes "anyOf") fs) (get (codes "oneOf") fs) p
          (get-Plain free _ fs p) (get-Plain free _ fs p) b h

    compile_values-Post :
        (fs : Fields) (o : Option Value)
        → PlainFields free fs
        → Compiles free (compile_values doubles go fs o)
    unfolding compile_values
    compile_values-Post fs (some (arr xs)) p b h = compile_enum-Post xs b h
    compile_values-Post fs (some _) p b h = compile_const-Post fs (get (codes "const") fs) p b h
    compile_values-Post fs none p b h = compile_const-Post fs (get (codes "const") fs) p b h

compile_fields_of-Post :
    (free : Bool) (doubles : Doubles) (go : Compiler)
    → Goes free go
    → (root : Value) (fs : Fields) (o : Option Value) → PlainFields free fs
    → NoRef free o
    → Compiles free (compile_fields_of doubles go root fs o)
unfolding compile_fields_of
compile_fields_of-Post false doubles go goes root fs (some (str r)) p n b h =
    compile_ref-Post go goes root r b h
compile_fields_of-Post true doubles go goes root fs (some v) p n b h = absurd n
compile_fields_of-Post free doubles go goes root fs o p n b h =
    compile_values-Post free doubles go goes fs (get (codes "enum") fs) p b h

pub compile-Post :
    (free : Bool) (doubles : Doubles) (levels : ℕ) (root : Value)
    → Goes free (compile doubles levels root)
unfolding compile
compile-Post free doubles zero root s b p h = tt
compile-Post free doubles (suc levels) root (bool false) b p h = tt
compile-Post free doubles (suc levels) root (bool true) b p h = any-Post free doubles b h
compile-Post free doubles (suc levels) root (obj fs) b p h =
    compile_fields_of-Post free doubles (compile doubles levels root)
      (compile-Post free doubles levels root) root fs (get (codes "$ref") fs) p
      (get-NoRef free fs p) b h
compile-Post free doubles (suc levels) root _ b p h = tt
