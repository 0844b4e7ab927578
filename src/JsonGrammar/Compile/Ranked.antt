-- ===== src/JsonGrammar/Compile/Ranked.antt =====
-- core/json_grammar.cpp, `configure` and `start_value`: schemas without references.
use desiree_ia.Prelude.{
  ℕ, zero, suc, ◌-◌, ◌≤◌, ◌<◌, Bool, true, some, List, length, get_or, ltb, ◌≡◌, sym, ap, ◌∙◌,
  arith, if◌then◌else◌, Bytes,
}
use mathlib.Core.Path.{subst}
use desiree_ia.Jinja.Values.{Doubles}
use desiree_ia.Jinja.Parser.{parse_json}
use desiree_ia.JsonGrammar.{Kind, any, union, any_node, Grammar, node_at}
use desiree_ia.JsonGrammar.Constraint.{State, reset, allows, accept_all}
use desiree_ia.JsonGrammar.Returns.{Returns, Falls, IsRanked}
use desiree_ia.JsonGrammar.Reached.{SoundCfgs}
use desiree_ia.JsonGrammar.Total.{generation-Sound}
use desiree_ia.Prelude.Indexed.{All-imp, get_or-take}
use desiree_ia.JsonGrammar.Compile.Configure.{on, generic_nodes, skip_blanks, configure}
use desiree_ia.JsonGrammar.Compile.Formed.{IsFormed, PlainText, configure-Forms}

-- The generic nodes but the last are lowest; then the nodes from the last one on.
abbrev rank : ℕ → ℕ → ℕ
rank len i = if ltb i 5 then 0 else suc (len - i)

rank-zero : (len i : ℕ) → i < 5 → rank len i ≡ 0
rank-zero len i h = ground arith

rank-above : (len i : ℕ) → 5 ≤ i → rank len i ≡ suc (len - i)
rank-above len i h = ground arith

rank-lt : (len i j : ℕ) → 5 ≤ i → i < j → j < len → rank len j < rank len i
rank-lt len i j le lt h = omega (arith, rank-above len i le, rank-above len j (omega arith))

rank-below : (len i : ℕ) → rank len i < suc (suc len)
rank-below len i = ground arith

module _ (g : Grammar) (formed : IsFormed true g) where
  abbrev falling : ℕ → ℕ
  falling = rank (length g.nodes)

  shared-falls : (i j : ℕ) → 5 ≤ i → j < 5 → falling j < falling i
  shared-falls i j le lt =
      omega (arith, rank-zero (length g.nodes) j lt, rank-above (length g.nodes) i le)

  Falls-later : (i : ℕ) (k : Kind) → 5 ≤ i → Falls falling g i k
  Falls-later i union le =
      All-imp _ _ (node_at g i).alts (λ j p. rank-lt (length g.nodes) i j le p.0 p.1)
        (formed.nodes i).alts
  Falls-later i any le = (
    shared-falls i g.any_obj le (omega (arith, formed.any_obj)),
    shared-falls i g.any_arr le (omega (arith, formed.any_arr)),
    shared-falls i g.any_str le (omega (arith, formed.any_str)),
    shared-falls i g.any_num le (omega (arith, formed.any_num)),
    shared-falls i g.any_lits le (omega (arith, formed.any_lits)),
  )
  Falls-later i _ le = tt

  generic_kind : (i : ℕ) → i < 6 → (node_at g i).kind ≡ (get_or generic_nodes i any_node).kind
  generic_kind i lt =
      ap (λ n. n.kind) (get_or-take any_node 6 i g.nodes lt)
      ∙ ap (λ ns. (get_or ns i any_node).kind) formed.generic

  falls : (i : ℕ) → Falls falling g i (node_at g i).kind
  unfolding generic_nodes
  falls zero = subst (Falls falling g 0) (sym (generic_kind 0 (omega arith))) tt
  falls (suc zero) = subst (Falls falling g 1) (sym (generic_kind 1 (omega arith))) tt
  falls (suc (suc zero)) = subst (Falls falling g 2) (sym (generic_kind 2 (omega arith))) tt
  falls (suc (suc (suc zero))) = subst (Falls falling g 3) (sym (generic_kind 3 (omega arith))) tt
  falls (suc (suc (suc (suc zero)))) =
      subst (Falls falling g 4) (sym (generic_kind 4 (omega arith))) tt
  falls (suc (suc (suc (suc (suc i))))) =
      Falls-later (suc (suc (suc (suc (suc i))))) _ (omega arith)

  formed-IsRanked : IsRanked g falling (suc (suc (length g.nodes)))
  formed-IsRanked = record { falls = falls; below = λ i. rank-below (length g.nodes) i }

-- Where no object in the text of the schema has a member called "$ref", the grammar that
-- `configure` makes bounds the recursion of `start_value`, by two more than its nodes: a generation
-- from its start on, whatever its tokens, reaches a state; the state keeps to the limits that
-- `SoundCfgs` lists; and `allows` returns in it for every token.
pub configured-Sound :
    (doubles : Doubles) (text : Bytes) (g : Grammar) (ps : List Bytes)
    → PlainText true (parse_json (skip_blanks text))
    → configure doubles text ≡ on g
    → (s : State) × (accept_all (suc (suc (length g.nodes))) g (reset g) ps ≡ some s)
      × SoundCfgs g s.cfgs
      × ((piece : Bytes) (is_eog : Bool)
          → Returns (allows (suc (suc (length g.nodes))) g s piece is_eog))
configured-Sound doubles text g ps p e =
    let formed : IsFormed true g = rw e at (configure-Forms true doubles text p) in
    generation-Sound g (formed-IsRanked g formed) ps
