-- ===== src/JsonGrammar/Compile/Built.antt =====
-- core/json_grammar.cpp, `compile`: the state `nodes_` and `ref_memo_` are in between its steps.
use desiree_ia.Prelude.{
  ℕ, suc, ◌≤◌, ◌<◌, Bool, true, false, Option, none, some, [], ◌∷◌, ◌++◌, length, get_or, set, take,
  ◌≡◌, refl, ◌∙◌, arith, All, length-append,
}
use desiree_ia.Jinja.Values.{Value}
use desiree_ia.JsonGrammar.Compile.Plain.{Plain}
use desiree_ia.JsonGrammar.{Kind, any, Node, any_node}
use desiree_ia.JsonGrammar.Compile.Builder.{
  Builder, Outcome, ok, err, then_do, Compiler, add_node, update,
}
use desiree_ia.JsonGrammar.Compile.Configure.{generic_nodes}
use desiree_ia.JsonGrammar.Compile.Sorted.{Ascends, Rises}
use desiree_ia.Prelude.Indexed.{
  get_or-append, get_or-set, length-set, take-append, take-set, All-imp,
}

-- Without references, an alternative stands behind its union, and what is compiled is new.
abbrev pub Behind : Bool → ℕ → ℕ → Type 0
Behind true i j = i < j
Behind false i j = Unit

abbrev pub New : Bool → ℕ → ℕ → Type 0
New true old idx = old ≤ idx
New false old idx = Unit

abbrev pub Inside : ℕ → Option ℕ → Type 0
Inside len none = Unit
Inside len (some c) = c < len

-- The node at `i`, of `len`.
pub record IsNode (free : Bool) (len i : ℕ) (n : Node) : Type 0 where
  pub alts : All (λ j. Behind free i j × (j < len)) n.alts
  pub prop : All (λ j. j < len) n.prop
  pub extra : Inside len n.extra_node
  pub items : Inside len n.items
  pub keys : length n.keys ≡ length n.prop
  pub req : length n.req_mask ≡ length n.prop
  pub most : length n.prop ≤ 64
  pub ascends : Ascends n.keys
  pub rises : Rises n.texts

pub record IsBuilt (free : Bool) (b : Builder) : Type 0 where
  pub nodes : (i : ℕ) → IsNode free (length b.nodes) i (get_or b.nodes i any_node)
  pub memo : All (λ p. p.1 < length b.nodes) b.memo
  pub least : 6 ≤ length b.nodes
  pub generic : take 6 b.nodes ≡ generic_nodes

-- `R` relates a result to the number of nodes after the call; there were `old` before it.
abbrev pub Post : {A : Type 0} → Bool → ℕ → (A → ℕ → Type 0) → Outcome A → Type 0
Post free old R (err e) = Unit
Post free old R (ok a b) = IsBuilt free b × (old ≤ length b.nodes) × R a (length b.nodes)

abbrev pub Lands : Bool → ℕ → ℕ → ℕ → Type 0
Lands free old idx len = New free old idx × (idx < len)

abbrev pub Added : ℕ → ℕ → ℕ → Type 0
Added old idx len = (idx ≡ old) × (len ≡ suc idx)

pub then_do-Post :
    {A B : Type 0}
    → (free : Bool) (old mid : ℕ) (R : A → ℕ → Type 0) (S : B → ℕ → Type 0) (o : Outcome A)
      (k : A → Builder → Outcome B)
    → old ≤ mid
    → Post free mid R o
    → ((a : A) (b : Builder)
        → IsBuilt free b
        → mid ≤ length b.nodes
        → R a (length b.nodes)
        → Post free old S (k a b))
    → Post free old S (then_do o k)
then_do-Post free old mid R S (err e) k le h f = tt
then_do-Post free old mid R S (ok a b) k le h f = f a b h.0 h.1 h.2

pub Post-imp :
    {A : Type 0}
    → (free : Bool) (old mid : ℕ) (R S : A → ℕ → Type 0) (o : Outcome A) → old ≤ mid
    → ((a : A) (len : ℕ) → mid ≤ len → R a len → S a len)
    → Post free mid R o
    → Post free old S o
Post-imp free old mid R S (err e) le f h = tt
Post-imp free old mid R S (ok a b) le f h =
    (h.0, omega (arith, le, h.1), f a (length b.nodes) h.1 h.2)

New-later : (free : Bool) (old mid idx : ℕ) → old ≤ mid → New free mid idx → New free old idx
New-later true old mid idx le h = omega arith
New-later false old mid idx le h = tt

-- What lands after a later call lands after an earlier one.
pub Lands-later :
    (free : Bool) (old mid : ℕ)
    → old ≤ mid
    → (idx len : ℕ) → mid ≤ len
    → Lands free mid idx len
    → Lands free old idx len
Lands-later free old mid le idx len m h = (New-later free old mid idx le h.0, h.1)

pub newer : (free : Bool) (old idx : ℕ) → old ≤ idx → New free old idx
newer true old idx le = le
newer false old idx le = tt

Inside-more : (len len' : ℕ) (o : Option ℕ) → len ≤ len' → Inside len o → Inside len' o
Inside-more len len' none le h = tt
Inside-more len len' (some c) le h = omega arith

IsNode-more :
    (free : Bool) (len len' i : ℕ) (n : Node)
    → len ≤ len'
    → IsNode free len i n
    → IsNode free len' i n
IsNode-more free len len' i n le h = record {
  alts = All-imp _ _ n.alts (λ j p. (p.0, omega (arith, p.1))) h.alts;
  prop = All-imp _ _ n.prop (λ j p. omega arith) h.prop;
  extra = Inside-more len len' n.extra_node le h.extra;
  items = Inside-more len len' n.items le h.items;
  keys = h.keys;
  req = h.req;
  most = h.most;
  ascends = h.ascends;
  rises = h.rises;
}

-- A node that refers to no other and has no texts.
pub bare-IsNode :
    (free : Bool) (len i : ℕ) (k : Kind) (least : ℕ) (most : Option ℕ) (short : ℕ) (long : Option ℕ)
    → IsNode free len i (record any_node {
      kind = k;
      min_items = least;
      max_items = most;
      min_len = short;
      max_len = long;
    })
bare-IsNode free len i k least most short long = record {
  alts = tt;
  prop = tt;
  extra = tt;
  items = tt;
  keys = refl;
  req = refl;
  most = omega arith;
  ascends = tt;
  rises = tt;
}

pub add_node-IsBuilt :
    (free : Bool) (n : Node) (b : Builder)
    → IsNode free (suc (length b.nodes)) (length b.nodes) n
    → IsBuilt free b
    → IsBuilt free (record b { nodes = b.nodes ++ n ∷ [] })
add_node-IsBuilt free n b p h =
    let len : length (b.nodes ++ n ∷ []) ≡ suc (length b.nodes) =
      omega (arith, length-append b.nodes (n ∷ [])) in
    record {
      nodes = rw len (
          get_or-append any_node (IsNode free (suc (length b.nodes))) b.nodes n p
            (λ i. bare-IsNode free (suc (length b.nodes)) i any 0 none 0 none)
            (λ i.
              IsNode-more free (length b.nodes) (suc (length b.nodes)) i (get_or b.nodes i any_node)
                (omega arith) (h.nodes i)));
      memo = rw len (All-imp _ _ b.memo (λ q lt. omega arith) h.memo);
      least = omega (arith, len, h.least);
      generic = take-append 6 b.nodes (n ∷ []) h.least ∙ h.generic;
    }

-- The node that is added has the number of nodes before as its index.
pub add_node-Post :
    (free : Bool) (n : Node) (b : Builder)
    → IsNode free (suc (length b.nodes)) (length b.nodes) n
    → IsBuilt free b
    → Post free (length b.nodes) (Added (length b.nodes)) (add_node n b)
unfolding add_node
add_node-Post free n b p h = (
  add_node-IsBuilt free n b p h,
  omega (arith, length-append b.nodes (n ∷ [])),
  (refl, omega (arith, length-append b.nodes (n ∷ []))),
)

pub added-Lands :
    (free : Bool) (n : Node) (b : Builder)
    → IsNode free (suc (length b.nodes)) (length b.nodes) n
    → IsBuilt free b
    → Post free (length b.nodes) (Lands free (length b.nodes)) (add_node n b)
added-Lands free n b p h =
    Post-imp free (length b.nodes) (length b.nodes) (Added (length b.nodes))
      (Lands free (length b.nodes)) (add_node n b) (omega arith)
      (λ idx len le r. (newer free (length b.nodes) idx (omega (arith, r.0)), omega (arith, r.1)))
      (add_node-Post free n b p h)

-- A change of a node that is not generic, for a call that began before the node was added.
pub update-Post :
    (free : Bool) (old idx : ℕ) (f : Node → Node) (b : Builder)
    → 6 ≤ old
    → old ≤ idx
    → idx < length b.nodes
    → (IsNode free (length b.nodes) idx (get_or b.nodes idx any_node)
        → IsNode free (length b.nodes) idx (f (get_or b.nodes idx any_node)))
    → IsBuilt free b
    → Post free old (Lands free old) (ok idx (update idx f b))
unfolding update
update-Post free old idx f b six le lt p h =
    let len : length (set b.nodes idx (f (get_or b.nodes idx any_node))) ≡ length b.nodes =
      length-set b.nodes idx _ in
    (
      record {
        nodes = rw len (
            get_or-set any_node (IsNode free (length b.nodes)) b.nodes idx _ (p (h.nodes idx))
              h.nodes);
        memo = rw len h.memo;
        least = omega (arith, len, h.least);
        generic = take-set 6 b.nodes idx _ (omega arith) ∙ h.generic;
      },
      omega (arith, len),
      (newer free old idx le, omega (arith, len)),
    )

-- What the compilation of a schema at the next depth promises.
abbrev pub Goes : Bool → Compiler → Type 0
Goes free go =
    (v : Value) (b : Builder)
    → Plain free v
    → IsBuilt free b
    → Post free (length b.nodes) (Lands free (length b.nodes)) (go v b)
