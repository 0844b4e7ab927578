-- ===== src/ToolGrammar/Names.antt =====
-- core/tool_grammar.cpp, `accept`: the name of a finished call.
use desiree_ia.Prelude.{
  Option, none, some, List, [], ◌∷◌, ◌++◌, length, drop, ◌≡◌, refl, ◌+◌, ◌⊎◌, inl, inr, Bytes,
  Bool-cases, Option-cases,
}
use desiree_ia.ToolGrammar.{Phase, scanning, json, State, Config, initial, step}
use desiree_ia.ToolGrammar.Accept.{
  run, find, or_give_up, scan, accept_in, accept, configured, give_up, accept_all,
}
use desiree_ia.ToolGrammar.Shape.{Ensures, Known, step-Known}

abbrev pub Member : Bytes → List Bytes → Type 0
Member x [] = ⊥
Member x (y ∷ ys) = (x ≡ y) ⊎ Member x ys

module _ (k : Config) where
  abbrev pub Seen : State → Type 0
  Seen s = (s.phase ≡ scanning) ⊎ Known k s

  pub run-Known : (p : Bytes) (s : State) → Known k s → Ensures (Known k) (run k s p)
  unfolding run
  run-Known [] s v = v
  run-Known (c ∷ p) s v = elim (Option-cases (step k s c)) [
    | inl e ↦ rw (e, run) tt
    | inr (s', e) ↦ rw (e, run) (run-Known p s' (rw e at (step-Known k s c v)))
  ]

  or_give_up-Seen : (o : Option State) → Ensures (Known k) o → Seen (or_give_up o)
  unfolding or_give_up give_up
  or_give_up-Seen none h = inl refl
  or_give_up-Seen (some s) h = inr h

  -- A call begins with nothing read.
  abbrev opened : State
  opened = record initial { phase = json }

  opened-Known : Known k opened
  opened-Known = inl (record { in_json = refl; not_begun = refl; bare = refl })

  scan-Seen : (s : State) (tail : Bytes) → s.phase ≡ scanning → Seen (scan k s tail)
  unfolding scan
  scan-Seen s tail e = elim (Option-cases (find k.open_tag tail)) [
    | inl f ↦ rw (f, scan) (inl e)
    | inr (i, f) ↦
        rw (f, scan)
          (or_give_up-Seen _ (run-Known (drop (i + length k.open_tag) tail) opened opened-Known))
  ]

  accept_in-Seen :
      (ph : Phase) (s : State) (p : Bytes) → s.phase ≡ ph → Seen s → Seen (accept_in ph k s p)
  unfolding accept_in
  accept_in-Seen scanning s p e v = scan-Seen s (s.tail ++ p) e
  accept_in-Seen _ s p e (inl v) = absurd (cc)
  accept_in-Seen _ s p e (inr v) = or_give_up-Seen (run k s p) (run-Known p s v)

  accept-Seen : (s : State) (p : Bytes) → Seen s → Seen (accept k s p)
  unfolding accept
  accept-Seen s p v = elim (Bool-cases (configured k)) [
    | inl e ↦ rw e (accept_in-Seen s.phase s p refl v)
    | inr e ↦ rw e v
  ]

  pub accept_all-Seen : (ps : List Bytes) (s : State) → Seen s → Seen (accept_all k s ps)
  unfolding accept_all
  accept_all-Seen [] s v = v
  accept_all-Seen (p ∷ ps) s v = accept_all-Seen ps (accept k s p) (accept-Seen s p v)
