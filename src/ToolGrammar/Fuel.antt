-- ===== src/ToolGrammar/Fuel.antt =====
-- core/tool_grammar.cpp, `ToolCallConstraint::step`: how deep it calls itself.
use desiree_ia.Prelude.{
  ℕ, suc, Option, [], ◌∷◌, ◌≡◌, refl, arith, inl, inr, Bytes, ◌==◌, Bool-cases,
}
use desiree_ia.ToolGrammar.{
  Phase, scanning, json, close, finished, Mode, value, arr_value_or_end, number, State, Config,
  after_value_at, after_value, step_mode, step_phase, step_fuel, step,
}

-- The modes that hand the byte on to a second round.
abbrev IsHanding : Mode → Type 0
IsHanding arr_value_or_end = Unit
IsHanding number = Unit
IsHanding _ = ⊥

-- In any other mode the switch does not call `step` again.
step_mode-again :
    (k : Config) (f g : State → Option State) (m : Mode) (s : State) (c : ℕ)
    → ¬ IsHanding m
    → step_mode k f m s c ≡ step_mode k g m s c
unfolding step_mode
step_mode-again k f g arr_value_or_end s c h = absurd (h tt)
step_mode-again k f g number s c h = absurd (h tt)
step_mode-again k f g _ s c h = refl

step_phase-again :
    (k : Config) (f g : State → Option State) (p : Phase) (s : State) (c : ℕ)
    → ¬ IsHanding s.mode
    → step_phase k f p s c ≡ step_phase k g p s c
unfolding step_phase
step_phase-again k f g scanning s c h = ground (arith, step_mode-again k f g s.mode s c h)
step_phase-again k f g json s c h = ground (arith, step_mode-again k f g s.mode s c h)
step_phase-again k f g close s c h = refl
step_phase-again k f g finished s c h = refl

after_value_at-IsHanding :
    (k : Config) (st : Bytes) (s : State) → ¬ IsHanding (after_value_at k st s).mode
unfolding after_value_at
after_value_at-IsHanding k [] s = λ h. h
after_value_at-IsHanding k (top ∷ rest) s = elim (Bool-cases (top == b'{')) [
  | inl e ↦ rw e (λ h. h)
  | inr e ↦ rw e (λ h. h)
]

after_value-IsHanding : (k : Config) (s : State) → ¬ IsHanding (after_value k s).mode
unfolding after_value
after_value-IsHanding k s = after_value_at-IsHanding k s.stack s

module _ (k : Config) (f g : State → Option State)
    (same : (s : State) → ¬ IsHanding s.mode → f s ≡ g s) where
  step_mode-agree : (m : Mode) (s : State) (c : ℕ) → step_mode k f m s c ≡ step_mode k g m s c
  unfolding step_mode
  step_mode-agree arr_value_or_end s c = ground (arith, same (record s { mode = value }) (λ h. h))
  step_mode-agree number s c = ground (arith, same (after_value k s) (after_value-IsHanding k s))
  step_mode-agree _ s c = refl

  step_phase-agree : (p : Phase) (s : State) (c : ℕ) → step_phase k f p s c ≡ step_phase k g p s c
  unfolding step_phase
  step_phase-agree scanning s c = rw (step_mode-agree s.mode s c)
  step_phase-agree json s c = rw (step_mode-agree s.mode s c)
  step_phase-agree _ s c = refl

-- `step` calls itself at most once: with any bound from two on, and whatever the answer for a call at
-- which the bound is met, the answer is that of `step`, so that no call meets the bound.
pub step_fuel-step :
    (unmet : State → Option State) (n : ℕ) (k : Config) (s : State) (c : ℕ)
    → step_fuel unmet (suc (suc n)) k s c ≡ step k s c
unfolding step_fuel step
step_fuel-step unmet n k s c =
    step_phase-agree k _ _ (λ s' h. step_phase-again k _ _ s'.phase s' c h) s.phase s c
