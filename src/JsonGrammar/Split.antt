-- ===== src/JsonGrammar/Split.antt =====
-- core/json_grammar.cpp, `allows` and `accept`: a text as one token and as two.
use desiree_ia.Prelude.{
  ℕ, Bool, true, false, Option, none, some, List, [], ◌∷◌, ◌++◌, ◌≡◌, ◌≢◌, refl, arith, Bytes,
  is_empty, if◌then◌else◌,
}
use desiree_ia.JsonGrammar.{Grammar, Config}
use desiree_ia.JsonGrammar.Constraint.{
  State, Run, alive, ended, stuck, advance, run_piece, allows, accept, constraining,
}

abbrev go_on : Run → (List Config → Run) → Run
go_on (alive cs) k = k cs
go_on ended k = ended
go_on stuck k = stuck

append-bind :
    (o : Option (List Config)) (k k' : Config → List Config → Run) (h : List Config → Run)
    → ((c : Config) (cs : List Config) → k' c cs ≡ go_on (k c cs) h)
    → elim o [ none ↦ stuck | some next ↦ elim next [ [] ↦ ended | c ∷ cs ↦ k' c cs ] ]
      ≡ go_on (elim o [ none ↦ stuck | some next ↦ elim next [ [] ↦ ended | c ∷ cs ↦ k c cs ] ]) h
append-bind none k k' h e = refl
append-bind (some []) k k' h e = refl
append-bind (some (c ∷ cs)) k k' h e = e c cs

is_empty-append : (p q : Bytes) → p ≢ [] → is_empty (p ++ q) ≡ false
is_empty-append [] q h = absurd (h refl)
is_empty-append (c ∷ p) q h = refl

is_empty-ne : (p : Bytes) → p ≢ [] → is_empty p ≡ false
is_empty-ne [] h = absurd (h refl)
is_empty-ne (c ∷ p) h = refl

module _ (depth : ℕ) (g : Grammar) where
  run_piece-append :
      (p q : Bytes) (cs : List Config)
      → run_piece depth g cs (p ++ q)
        ≡ go_on (run_piece depth g cs p) (λ cs'. run_piece depth g cs' q)
  unfolding run_piece
  run_piece-append [] q cs = refl
  run_piece-append (ch ∷ p) q cs =
      append-bind (advance depth g cs ch) _ _ _ (λ c next. run_piece-append p q (c ∷ next))

  -- `allows` on the first token and, where it says yes and the token is accepted, on the second.
  abbrev pub allows_in_turn : State → Bytes → Bytes → Option Bool
  allows_in_turn s p q = elim (allows depth g s p false) [
    | none ↦ none
    | some b ↦
        if b
        then elim (accept depth g s p) [ none ↦ none | some s' ↦ allows depth g s' q false ]
        else some false
  ]

  -- In a state that constrains, a text is allowed as one token exactly when its two parts are
  -- allowed one after the other.
  pub allows-append_in_turn :
      (s : State) (p q : Bytes)
      → constraining g s ≡ true
      → p ≢ []
      → q ≢ []
      → allows depth g s (p ++ q) false ≡ allows_in_turn s p q
  unfolding allows accept constraining
  allows-append_in_turn s p q on np nq = ground (
    arith,
    run_piece-append p q s.cfgs,
    is_empty-append p q np,
    is_empty-ne p np,
    is_empty-ne q nq,
  )
