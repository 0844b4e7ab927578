-- ===== src/JsonGrammar/Compile/Members.antt =====
-- core/json_grammar.cpp, `compile`: what is kept in order by the schemas of objects.
use desiree_ia.Prelude.{
  ℕ, ◌≤◌, ◌<◌, Bool, true, not, Option, none, some, List, [], ◌∷◌, ◌++◌, length, is_empty, ltb, ◌∙◌,
  sym, arith, All, All-append, Bool-cases, inl, inr, if◌then◌else◌, Bytes, codes,
}
use desiree_ia.Jinja.Values.{Value, Fields, bool, obj, no_fields, field, get}
use desiree_ia.JsonGrammar.{object, any, Node, any_node}
use desiree_ia.JsonGrammar.Compile.Order.{sort_by}
use desiree_ia.JsonGrammar.Compile.Sorted.{sort_by-Ascends, length-sort_by, sort_by-All}
use desiree_ia.Prelude.Indexed.{All-imp, All-map, length-map}
use desiree_ia.JsonGrammar.Compile.Plain.{PlainFields, PlainOption, get-Plain}
use desiree_ia.JsonGrammar.Compile.Builder.{
  Builder, ok, err, then_do, Compiler, too_many, add_node, update,
}
use desiree_ia.JsonGrammar.Compile.Object.{
  Props, enc, is_listed, is_required, required_of, compile_fields, compile_props, add_required,
  compile_extra, object_node, compile_object,
}
use desiree_ia.JsonGrammar.Compile.Built.{
  Inside, IsNode, IsBuilt, Post, Lands, Added, then_do-Post, Post-imp, bare-IsNode, add_node-Post,
  update-Post, Goes,
}

abbrev pub InProps : Props → ℕ → Type 0
InProps props len = All (λ p. p.1 < len) props

later-InProps : (props : Props) (len len' : ℕ) → len ≤ len' → InProps props len → InProps props len'
later-InProps props len len' le h = All-imp _ _ props (λ p lt. omega arith) h

abbrev InExtra : Bool × Option ℕ → ℕ → Type 0
InExtra extra len = Inside len extra.1

object_node-IsNode :
    (free : Bool) (len i : ℕ) (required : List Bytes) (props : Props) (extra : Bool × Option ℕ)
    (n : Node)
    → length props ≤ 64
    → InProps props len
    → Inside len extra.1
    → IsNode free len i n
    → IsNode free len i (object_node required (sort_by (λ p. p.0) props) extra n)
object_node-IsNode free len i required props extra n le inside e q =
    let sorted : Props = sort_by (λ p. p.0) props in
    record {
      alts = q.alts;
      prop =
          All-map (λ p. p.1) (λ j. j < len) sorted
            (sort_by-All (λ p. p.0) (λ p. p.1 < len) props inside);
      extra = e;
      items = q.items;
      keys = length-map (λ p. p.0) sorted ∙ sym (length-map (λ p. p.1) sorted);
      req = length-map (λ p. is_required required p.0) sorted ∙ sym (length-map (λ p. p.1) sorted);
      most = omega (arith, length-map (λ p. p.1) sorted, length-sort_by (λ p. p.0) props);
      ascends = sort_by-Ascends (λ p. p.0) props;
      rises = q.rises;
    }

module _ (free : Bool) where
  add_required-Post :
      (required : List Bytes) (props : Props) (b : Builder)
      → InProps props (length b.nodes)
      → IsBuilt free b
      → Post free (length b.nodes) InProps (add_required required props b)
  unfolding add_required
  add_required-Post [] props b i h = (h, omega arith, i)
  add_required-Post (r ∷ required) props b i h = elim (Bool-cases (is_listed (enc r) props)) [
    | inl e ↦ rw (e, add_required) (add_required-Post required props b i h)
    | inr e ↦
        rw (e, add_required)
          (then_do-Post free (length b.nodes) (length b.nodes) (Added (length b.nodes)) InProps
            (add_node any_node b) _ (omega arith)
            (add_node-Post free any_node b (bare-IsNode free _ _ any 0 none 0 none) h)
            (λ c b1 h1 le1 r1.
              Post-imp free (length b.nodes) (length b1.nodes) InProps InProps _ le1
                (λ a len le q. q)
                (add_required-Post required (props ++ (enc r, c) ∷ []) b1
                  (All-append _ props ((enc r, c) ∷ []) (later-InProps props _ _ le1 i)
                    (omega (arith, r1.1), tt))
                  h1)))
  ]

  module _ (go : Compiler) (goes : Goes free go) where
    compile_fields-Post :
        (fs : Fields) (b : Builder)
        → PlainFields free fs
        → IsBuilt free b
        → Post free (length b.nodes) InProps (compile_fields go fs b)
    unfolding compile_fields
    compile_fields-Post no_fields b p h = (h, omega arith, tt)
    compile_fields-Post (field k v fs) b p h =
        then_do-Post free (length b.nodes) (length b.nodes) (Lands free (length b.nodes)) InProps
          (go v b) _ (omega arith) (goes v b p.1 h)
          (λ c b1 h1 le1 r1.
            then_do-Post free (length b.nodes) (length b1.nodes) InProps InProps
              (compile_fields go fs b1) _ le1 (compile_fields-Post fs b1 p.2 h1)
              (λ props b2 h2 le2 r2. (h2, omega arith, (omega (arith, r1.1), r2))))

    compile_props-Post :
        (fs : Fields) (b : Builder)
        → PlainFields free fs
        → IsBuilt free b
        → Post free (length b.nodes) InProps (compile_props go fs b)
    unfolding compile_props
    compile_props-Post fs b p h = props (get (codes "properties") fs) (get-Plain free _ fs p)
      where
        props :
            (o : Option Value)
            → PlainOption free o
            → Post free (length b.nodes) InProps (elim o [
              | some (obj ps) ↦ compile_fields go ps b
              | some v ↦ ok [] b
              | none ↦ ok [] b
            ])
        props (some (obj ps)) q = compile_fields-Post ps b q h
        props (some _) q = (h, omega arith, tt)
        props none q = (h, omega arith, tt)

    compile_extra-Post :
        (fs : Fields) (has_props : Bool) (b : Builder)
        → PlainFields free fs
        → IsBuilt free b
        → Post free (length b.nodes) InExtra (compile_extra go fs has_props b)
    unfolding compile_extra
    compile_extra-Post fs has_props b p h =
        extra (get (codes "additionalProperties") fs) (get-Plain free _ fs p)
      where
        extra :
            (o : Option Value)
            → PlainOption free o
            → Post free (length b.nodes) InExtra (elim o [
              | some (bool t) ↦ ok (t, none) b
              | some (obj ps) ↦ then_do (go (obj ps) b) (λ c b1. ok (true, some c) b1)
              | some v ↦ ok (not has_props, none) b
              | none ↦ ok (not has_props, none) b
            ])
        extra (some (obj ps)) q =
            then_do-Post free (length b.nodes) (length b.nodes) (Lands free (length b.nodes))
              InExtra (go (obj ps) b) _ (omega arith) (goes (obj ps) b q h)
              (λ c b1 h1 le1 r1. (h1, le1, r1.1))
        extra (some _) q = (h, omega arith, tt)
        extra none q = (h, omega arith, tt)

    -- The last part, once the properties are known.
    filled-Post :
        (old idx : ℕ) (fs : Fields) (props : Props) (b : Builder)
        → 6 ≤ old
        → old ≤ idx
        → idx < length b.nodes
        → PlainFields free fs
        → InProps props (length b.nodes)
        → IsBuilt free b
        → Post free old (Lands free old) (
            if ltb 64 (length props)
            then err too_many
            else then_do (compile_extra go fs (not (is_empty props)) b) (λ extra b4.
              ok idx
                (update idx (object_node (required_of fs) (sort_by (λ p. p.0) props) extra) b4)))
    filled-Post old idx fs props b six le lt p i h = elim (Bool-cases (ltb 64 (length props))) [
      | inl e ↦ rw e tt
      | inr e ↦ rw e (
          then_do-Post free old (length b.nodes) InExtra (Lands free old)
            (compile_extra go fs (not (is_empty props)) b) _ (omega arith)
            (compile_extra-Post fs (not (is_empty props)) b p h)
            (λ extra b4 h4 le4 r4.
              update-Post free old idx
                (object_node (required_of fs) (sort_by (λ p. p.0) props) extra) b4 six le
                (omega arith)
                (object_node-IsNode free _ idx (required_of fs) props extra _ (ground arith)
                  (later-InProps props _ _ le4 i) r4)
                h4))
    ]

    pub compile_object-Post :
        (fs : Fields) (b : Builder)
        → PlainFields free fs
        → IsBuilt free b
        → Post free (length b.nodes) (Lands free (length b.nodes)) (compile_object go fs b)
    unfolding compile_object
    compile_object-Post fs b p h =
        then_do-Post free (length b.nodes) (length b.nodes) (Added (length b.nodes))
          (Lands free (length b.nodes)) (add_node (record any_node { kind = object }) b) _
          (omega arith)
          (add_node-Post free (record any_node { kind = object }) b
            (bare-IsNode free _ _ object 0 none 0 none) h)
          (λ idx b1 h1 le1 r1.
            then_do-Post free (length b.nodes) (length b1.nodes) InProps
              (Lands free (length b.nodes)) (compile_props go fs b1) _ le1
              (compile_props-Post fs b1 p h1)
              (λ own b2 h2 le2 r2.
                then_do-Post free (length b.nodes) (length b2.nodes) InProps
                  (Lands free (length b.nodes)) (add_required (required_of fs) own b2) _
                  (omega arith) (add_required-Post (required_of fs) own b2 r2 h2)
                  (λ props b3 h3 le3 r3.
                    filled-Post (length b.nodes) idx fs props b3 h.least (omega (arith, r1.0))
                      (omega (arith, r1.1)) p r3 h3)))
