-- ===== src/ToolGrammar/Split.antt =====
-- core/tool_grammar.cpp, `allows` and `accept`: a text as one token and as two.
use desiree_ia.Prelude.{
  Bool, true, false, ◌&&◌, Option, none, some, List, [], ◌∷◌, ◌++◌, ◌≡◌, ◌≢◌, refl, sym, arith, inl,
  inr, Bytes, Option-cases,
}
use desiree_ia.ToolGrammar.{Phase, scanning, finished, State, Config, step, step_fuel, step_phase}
use desiree_ia.ToolGrammar.Accept.{
  run, reset, or_give_up, accept_in, accept, configured, constraining, accept_all, allows_in,
  allows,
}
use desiree_ia.ToolGrammar.Shape.{Ensures, Known}
use desiree_ia.ToolGrammar.Names.{Seen, run-Known, accept_all-Seen}

abbrev survives : Option State → Bool
survives none = false
survives (some s) = true

pub run-append :
    (k : Config) (s : State) (p q : Bytes)
    → run k s (p ++ q) ≡ elim (run k s p) [ none ↦ none | some s' ↦ run k s' q ]
unfolding run
run-append k s [] q = refl
run-append k s (c ∷ p) q = elim (Option-cases (step k s c)) [
  | inl e ↦ rw (e, run)
  | inr (s', e) ↦ rw (e, run) (run-append k s' p q)
]

Known-constraining : (k : Config) (s : State) → Seen k s → constraining s ≡ true → Known k s
unfolding constraining
Known-constraining k s (inl v) h = ground arith
Known-constraining k s (inr v) h = v

allows_in-run :
    (k : Config) (ph : Phase) (s : State) (p : Bytes)
    → s.phase ≡ ph
    → Known k s
    → p ≢ []
    → allows_in ph k s p false ≡ survives (run k s p)
unfolding allows_in run step step_fuel step_phase
allows_in-run k scanning s p e v ne = ground arith
allows_in-run k finished s [] e v ne = absurd (ne refl)
allows_in-run k finished s (c ∷ p) e v ne = ground arith
allows_in-run k _ s [] e v ne = absurd (ne refl)
allows_in-run k _ s (c ∷ p) e v ne = refl

allows-run :
    (k : Config) (s : State) (p : Bytes)
    → Known k s
    → p ≢ []
    → allows k s p false ≡ survives (run k s p)
unfolding allows
allows-run k s p v ne = allows_in-run k s.phase s p refl v ne

accept-run :
    (k : Config) (s : State) (p : Bytes)
    → configured k ≡ true
    → Known k s
    → accept k s p ≡ or_give_up (run k s p)
unfolding accept accept_in
accept-run k s p on v = ground arith

append-ne-nil : (p q : Bytes) → p ≢ [] → p ++ q ≢ []
append-ne-nil [] q h = absurd (h refl)
append-ne-nil (c ∷ p) q h = λ e. cc

-- How the run over `q` goes on after the run over `p`.
survives-bind :
    (k : Config) (q : Bytes) (o : Option State)
    → configured k ≡ true
    → Ensures (Known k) o
    → q ≢ []
    → survives (elim o [ none ↦ none | some s' ↦ run k s' q ])
      ≡ (survives o && allows k (or_give_up o) q false)
unfolding or_give_up
survives-bind k q none on v nq = refl
survives-bind k q (some s) on v nq = sym (allows-run k s q v nq)

module _ (k : Config) (on : configured k ≡ true) (s : State) (v : Known k s) (p q : Bytes) where
  allows-append_Known :
      p ≢ []
      → q ≢ []
      → allows k s (p ++ q) false ≡ (allows k s p false && allows k (accept k s p) q false)
  allows-append_Known np nq =
      rw
        (
          allows-run k s (p ++ q) v (append-ne-nil p q np),
          allows-run k s p v np,
          accept-run k s p on v,
          run-append k s p q,
        )
        (survives-bind k q (run k s p) on (run-Known k p s v) nq)

-- From any state that a generation reaches inside a tool call, a text is allowed as one token
-- exactly when its first part is allowed and, once that is accepted, its second part is.
pub allows-append :
    (k : Config) (ps : List Bytes) (p q : Bytes)
    → configured k ≡ true
    → constraining (accept_all k reset ps) ≡ true
    → p ≢ []
    → q ≢ []
    → allows k (accept_all k reset ps) (p ++ q) false ≡ (
        allows k (accept_all k reset ps) p false
        && allows k (accept k (accept_all k reset ps) p) q false)
unfolding reset
allows-append k ps p q on c np nq =
    allows-append_Known k on _ (Known-constraining k _ (accept_all-Seen k ps reset (inl refl)) c) p
      q np nq
