-- ===== src/ToolGrammar/Shape.antt =====
-- core/tool_grammar.cpp, `step`: an invariant of the states that are reached.
use desiree_ia.Prelude.{
  ℕ, zero, suc, ◌≤◌, Bool, true, false, Option, none, some, [], ◌∷◌, length, ◌≡◌, refl, arith, ◌⊎◌,
  inl, inr, Bytes, ◌==◌, Bool-cases,
}
use desiree_ia.ToolGrammar.{
  json, close, finished, Mode, value, obj_key_or_end, obj_key, colon, obj_comma_or_end,
  arr_value_or_end, arr_comma_or_end, string, number, literal, done, State, Config, name_prefix_ok,
  after_value_at, after_value, step_close, step_start, step_value, step_key, step_key_or_end,
  step_string, step_colon, step_obj_comma, step_arr_comma, step_literal, step_mode, step_phase,
  step_fuel, step, pop_back,
}

-- The outermost bracket is the brace of the call object.
abbrev pub Rooted : Bytes → Type 0
Rooted [] = ⊥
Rooted (x ∷ []) = x ≡ b'{'
Rooted (x ∷ y ∷ rest) = Rooted (y ∷ rest)

-- The modes inside an array stand inside another bracket.
abbrev pub Fits : Mode → Bytes → Type 0
Fits arr_value_or_end stack = 2 ≤ length stack
Fits arr_comma_or_end stack = 2 ≤ length stack
Fits _ stack = Unit

pub record Opening (s : State) : Type 0 where
  pub in_json : s.phase ≡ json
  pub not_begun : s.started ≡ false
  pub bare : s.stack ≡ []

pub record Reading (s : State) : Type 0 where
  pub in_json : s.phase ≡ json
  pub begun : s.started ≡ true
  pub rooted : Rooted s.stack
  pub fits : Fits s.mode s.stack

pub record Ended (k : Config) (s : State) : Type 0 where
  pub over : (s.phase ≡ close) ⊎ (s.phase ≡ finished)
  pub named : name_prefix_ok k.names s.name true ≡ true

abbrev pub Ensures : (State → Type 0) → Option State → Type 0
Ensures P none = Unit
Ensures P (some s) = P s

Rooted-two :
    (x : ℕ) (rest : Bytes) → Rooted (x ∷ rest) → (x == b'{') ≡ false → 2 ≤ length (x ∷ rest)
Rooted-two x [] r e = ground arith
Rooted-two x (y ∷ rest) r e = omega arith

Rooted-pop : (stack : Bytes) → Rooted stack → 2 ≤ length stack → Rooted (pop_back stack)
Rooted-pop [] r h = absurd r
Rooted-pop (x ∷ []) r h = absurd (omega arith)
Rooted-pop (x ∷ y ∷ rest) r h = r

length-pop_back_one : (stack : Bytes) → (length stack == 1) ≡ true → pop_back stack ≡ []
length-pop_back_one [] h = refl
length-pop_back_one (x ∷ []) h = refl
length-pop_back_one (x ∷ y ∷ rest) h = absurd (ground arith)

Rooted-push : (x : ℕ) (stack : Bytes) → Rooted stack → Rooted (x ∷ stack)
Rooted-push x [] r = absurd r
Rooted-push x (y ∷ rest) r = r

Rooted-one : (stack : Bytes) → Rooted stack → (length stack == 1) ≡ false → 2 ≤ length stack
Rooted-one [] r h = absurd r
Rooted-one (x ∷ []) r h = cc
Rooted-one (x ∷ y ∷ rest) r h = omega arith

Rooted-some : (stack : Bytes) → Rooted stack → 1 ≤ length stack
Rooted-some [] r = absurd r
Rooted-some (x ∷ rest) r = omega arith

module _ (k : Config) where
  after_value_at-Reading :
      (stack : Bytes) (s : State)
      → s.phase ≡ json
      → s.started ≡ true
      → s.stack ≡ stack
      → Rooted stack
      → Reading (after_value_at k stack s)
  unfolding after_value_at
  after_value_at-Reading [] s p t e r = absurd r
  after_value_at-Reading (x ∷ rest) s p t e r = elim (Bool-cases (x == b'{')) [
    | inl b ↦ rw b (record { in_json = p; begun = t; rooted = rw e r; fits = tt })
    | inr b ↦
        rw b
          (record { in_json = p; begun = t; rooted = rw e r; fits = rw e (Rooted-two x rest r b) })
  ]

  after_value-Reading :
      (s : State) → s.phase ≡ json → s.started ≡ true → Rooted s.stack → Reading (after_value k s)
  unfolding after_value
  after_value-Reading s p t r = after_value_at-Reading s.stack s p t refl r

  module _ (s : State) (p : s.phase ≡ json) (t : s.started ≡ true) (r : Rooted s.stack) where
    pop-Reading :
        2 ≤ length s.stack → Reading (after_value k (record s { stack = pop_back s.stack }))
    pop-Reading h =
        after_value-Reading (record s { stack = pop_back s.stack }) p t (Rooted-pop s.stack r h)

    pop-Reading_deep :
        (length s.stack == 1) ≡ false
        → Reading (after_value k (record s { stack = pop_back s.stack }))
    pop-Reading_deep h = pop-Reading (Rooted-one s.stack r h)

    step_value-Reading :
        (top : Bool) (c : ℕ) → Fits s.mode s.stack → Ensures Reading (step_value top s c)
    unfolding step_value
    step_value-Reading top c f =
        ground
          (arith, Rooted-push b'{' s.stack r, Rooted-push b'[' s.stack r, Rooted-some s.stack r)

    step_key-Reading : (c : ℕ) → Fits s.mode s.stack → Ensures Reading (step_key s c)
    unfolding step_key
    step_key-Reading c f = ground arith

    step_key_or_end-Reading :
        (c : ℕ)
        → Fits s.mode s.stack
        → Ensures Reading (step_key_or_end k (length s.stack == 1) s c)
    unfolding step_key_or_end
    step_key_or_end-Reading c f = ground (arith, pop-Reading_deep, step_key-Reading c f)

    step_string-Reading :
        (top : Bool) (c : ℕ) → Fits s.mode s.stack → Ensures Reading (step_string k top s c)
    unfolding step_string
    step_string-Reading top c f = ground (
      arith,
      after_value-Reading s p t r,
      after_value-Reading (record s { reading_name = false }) p t r,
    )

    step_colon-Reading :
        (top : Bool) (c : ℕ) → Fits s.mode s.stack → Ensures Reading (step_colon top s c)
    unfolding step_colon
    step_colon-Reading top c f = ground arith

    step_arr_comma-Reading : (c : ℕ) → 2 ≤ length s.stack → Ensures Reading (step_arr_comma k s c)
    unfolding step_arr_comma
    step_arr_comma-Reading c f = ground (arith, pop-Reading f)

    step_literal-Reading :
        (rest : Bytes) (c : ℕ) → Fits s.mode s.stack → Ensures Reading (step_literal k rest s c)
    unfolding step_literal
    step_literal-Reading [] c f = tt
    step_literal-Reading (x ∷ []) c f =
        ground (arith, after_value-Reading (record s { literal_rest = [] }) p t r)
    step_literal-Reading (x ∷ y ∷ rest) c f = ground arith

    -- The call object itself is closed only once the name is a declared one.
    pop-Ended :
        (length s.stack == 1) ≡ true
        → name_prefix_ok k.names s.name true ≡ true
        → Ended k (after_value k (record s { stack = pop_back s.stack }))
    unfolding after_value after_value_at
    pop-Ended h n = rw (length-pop_back_one s.stack h) (record { over = ground arith; named = n })

    step_obj_comma-Reading :
        (c : ℕ)
        → Fits s.mode s.stack
        → Ensures (λ s'. Reading s' ⊎ Ended k s') (step_obj_comma k (length s.stack == 1) s c)
    unfolding step_obj_comma
    step_obj_comma-Reading c f = elim (Bool-cases (length s.stack == 1)) [
      | inl one ↦ rw one (ground (arith, pop-Ended one))
      | inr deep ↦ rw deep (ground (arith, pop-Reading_deep deep))
    ]

  abbrev pub Live : State → Type 0
  Live s = Reading s ⊎ Ended k s

  Ensures-Live : (o : Option State) → Ensures Reading o → Ensures Live o
  Ensures-Live none h = tt
  Ensures-Live (some s) h = inl h

  step_close-Ended :
      (s : State) (c : ℕ) → Ended k s → s.phase ≡ close → Ensures (Ended k) (step_close k s c)
  unfolding step_close
  step_close-Ended s c v e = ground arith

  step_start-Known :
      (s : State) (c : ℕ) → Opening s → Ensures (λ s'. Opening s' ⊎ Reading s') (step_start s c)
  unfolding step_start
  step_start-Known s c v = ground arith

  module _ (again : State → Option State)
      (next : (s : State) → Reading s → Ensures Live (again s)) where
    step_mode-Live :
        (m : Mode) (s : State) (c : ℕ)
        → s.phase ≡ json
        → s.started ≡ true
        → Rooted s.stack
        → Fits m s.stack
        → s.mode ≡ m
        → Ensures Live (step_mode k again m s c)
    unfolding step_mode
    step_mode-Live value s c p t r f e =
        Ensures-Live _ (step_value-Reading s p t r (length s.stack == 1) c (rw e f))
    step_mode-Live obj_key_or_end s c p t r f e =
        Ensures-Live _ (step_key_or_end-Reading s p t r c (rw e f))
    step_mode-Live obj_key s c p t r f e = Ensures-Live _ (step_key-Reading s p t r c (rw e f))
    step_mode-Live string s c p t r f e =
        Ensures-Live _ (step_string-Reading s p t r (length s.stack == 1) c (rw e f))
    step_mode-Live colon s c p t r f e =
        Ensures-Live _ (step_colon-Reading s p t r (length s.stack == 1) c (rw e f))
    step_mode-Live obj_comma_or_end s c p t r f e = step_obj_comma-Reading s p t r c (rw e f)
    step_mode-Live arr_value_or_end s c p t r f e =
        let opened : Reading (record s { mode = value }) = record {
          in_json = p;
          begun = t;
          rooted = r;
          fits = tt;
        } in
        let same : Reading s = record { in_json = p; begun = t; rooted = r; fits = rw e f } in
        let goes = next (record s { mode = value }) opened in
        let pops = pop-Reading s p t r f in ground arith
    step_mode-Live arr_comma_or_end s c p t r f e =
        Ensures-Live _ (step_arr_comma-Reading s p t r c f)
    step_mode-Live number s c p t r f e =
        let same : Reading s = record { in_json = p; begun = t; rooted = r; fits = rw e f } in
        let goes = next (after_value k s) (after_value-Reading s p t r) in ground arith
    step_mode-Live literal s c p t r f e =
        Ensures-Live _ (step_literal-Reading s p t r s.literal_rest c (rw e f))
    step_mode-Live done s c p t r f e = tt

    step_json-Live : (s : State) (c : ℕ) → Reading s → Ensures Live (step_phase k again s.phase s c)
    unfolding step_phase
    step_json-Live s c v =
        ground (arith, step_mode-Live s.mode s c v.in_json v.begun v.rooted v.fits refl)

  -- The second round never asks for a third.
  step_fuel-Live :
      (f : ℕ) (s : State) (c : ℕ) → Reading s → Ensures Live (step_fuel (λ s. none) f k s c)
  unfolding step_fuel
  step_fuel-Live zero s c v = tt
  step_fuel-Live (suc f) s c v =
      step_json-Live (λ s'. step_fuel (λ s. none) f k s' c) (λ s' v'. step_fuel-Live f s' c v') s c
        v

  step-Reading : (s : State) (c : ℕ) → Reading s → Ensures Live (step k s c)
  unfolding step
  step-Reading s c v = step_fuel-Live 2 s c v

  abbrev pub Known : State → Type 0
  Known s = Opening s ⊎ Live s

  step-Opening : (s : State) (c : ℕ) → Opening s → Ensures Known (step k s c)
  unfolding step step_fuel step_phase
  step-Opening s c v = ground (arith, step_start-Known s c v)

  step-Ended : (s : State) (c : ℕ) → Ended k s → Ensures Known (step k s c)
  unfolding step step_fuel step_phase
  step-Ended s c v = ground (arith, step_close-Ended s c v)

  pub step-Known : (s : State) (c : ℕ) → Known s → Ensures Known (step k s c)
  step-Known s c (inl v) = step-Opening s c v
  step-Known s c (inr (inl v)) = ground (arith, step-Reading s c v)
  step-Known s c (inr (inr v)) = step-Ended s c v
