-- ===== src/ToolGrammar/Gaps.antt =====
-- core/tool_grammar.cpp: texts that are no valid call, and what `give_up` leaves behind.
use desiree_ia.Prelude.{
  ℕ, ◌+◌, true, false, not, some, [], ◌∷◌, length, drop, ◌≡◌, ◌≢◌, refl, ◌∙◌, ap, arith, Bytes,
  equal, is_prefix, is_prefix-append, append-nil, is_empty,
}
use desiree_ia.ToolGrammar.{
  json, string, number, colon, State, Config, initial, text_name, is_escape, is_number_byte, step,
  step_fuel, step_phase, step_mode,
}
use desiree_ia.ToolGrammar.Accept.{
  run, find, or_give_up, scan, accept_in, accept, configured, give_up,
}

-- The state has read the text `name` of a key of the call object.
pub record InNameKey (s : State) : Type 0 where
  pub in_json : s.phase ≡ json
  pub begun : s.started ≡ true
  pub in_string : s.mode ≡ string
  pub outermost : s.stack ≡ b'{' ∷ []
  pub of_key : s.in_key ≡ true
  pub no_name : s.reading_name ≡ false
  pub no_escape : s.esc ≡ false
  pub no_hex : s.hex_left ≡ 0
  pub reads : s.key ≡ text_name

module _ (k : Config) (s : State) (v : InNameKey s) where
  step-backslash : step k s b'\\' ≡ some (record s { esc = true })
  unfolding step step_fuel step_phase step_mode
  step-backslash = ground arith

  step-escape : (c : ℕ) → is_escape c ≡ true → step k (record s { esc = true }) c ≡ some s
  unfolding step step_fuel step_phase step_mode
  step-escape c h = ground arith

  step-quote : step k s b'"' ≡ some (record s { mode = colon })
  unfolding step step_fuel step_phase step_mode equal
  step-quote = ground arith

run-number :
    (k : Config) (s : State) (c : ℕ)
    → s.phase ≡ json
    → s.started ≡ true
    → s.mode ≡ number
    → is_number_byte c ≡ true
    → step k s c ≡ some s
unfolding step step_fuel step_phase step_mode
run-number k s c p t m h = ground arith

is_prefix_self : (p : Bytes) → is_prefix p p ≡ true
is_prefix_self p = rw append-nil at (is_prefix-append p [])

find_self : (p : Bytes) → p ≢ [] → find p p ≡ some 0
unfolding find
find_self [] h = absurd (h refl)
find_self (c ∷ p) h = ground (arith, is_prefix_self (c ∷ p))

drop-length : (p : Bytes) → drop (length p) p ≡ []
drop-length [] = refl
drop-length (x ∷ p) = drop-length p

run-cons :
    (k : Config) (s s' : State) (c : ℕ) (cs : Bytes)
    → step k s c ≡ some s'
    → run k s (c ∷ cs) ≡ run k s' cs
unfolding run
run-cons k s s' c cs e = rw (e, run)

-- A key of the call object that reads `name` followed by any simple escape is taken for the key
-- "name": the escape is dropped from what is compared, and the colon is waited for.
pub run_escaped_key :
    (k : Config) (s : State) (c : ℕ)
    → InNameKey s
    → is_escape c ≡ true
    → run k s (b'\\' ∷ c ∷ b'"' ∷ []) ≡ some (record s { mode = colon })
run_escaped_key k s c v h =
    run-cons k s _ _ _ (step-backslash k s v)
    ∙ run-cons k _ _ _ _ (step-escape k s v c h)
    ∙ run-cons k s _ _ _ (step-quote k s v)
    ∙ unfold run in refl

abbrev pub AllNumber : Bytes → Type 0
AllNumber [] = Unit
AllNumber (c ∷ cs) = (is_number_byte c ≡ true) × AllNumber cs

-- Once a number has begun, digits, dots, exponents and signs are let through in any order.
pub run_number :
    (k : Config) (s : State) (cs : Bytes)
    → s.phase ≡ json
    → s.started ≡ true
    → s.mode ≡ number
    → AllNumber cs
    → run k s cs ≡ some s
run_number k s [] p t m h = unfold run in refl
run_number k s (c ∷ cs) p t m h =
    run-cons k s s c cs (run-number k s c p t m h.0) ∙ run_number k s cs p t m h.1

drop_all : (p : Bytes) → drop (0 + length p) p ≡ []
drop_all p = ap (λ n. drop n p) (omega arith) ∙ drop-length p

scan_open :
    (k : Config) (s : State)
    → k.open_tag ≢ []
    → scan k s k.open_tag ≡ record initial { phase = json }
unfolding scan
scan_open k s h =
    rw (find_self k.open_tag h, scan)
      (ap (λ t. or_give_up (run k (record initial { phase = json }) t)) (drop_all k.open_tag))

is_empty_of : (p : Bytes) → p ≢ [] → not (is_empty p) ≡ true
is_empty_of [] h = absurd (h refl)
is_empty_of (x ∷ p) h = refl

configured_of : (k : Config) → k.open_tag ≢ [] → configured k ≡ true
unfolding configured
configured_of k h = is_empty_of k.open_tag h

-- After the constraint has given up, the next open tag starts it again.
pub accept_after_give_up :
    (k : Config) → k.open_tag ≢ [] → accept k give_up k.open_tag ≡ record initial { phase = json }
unfolding accept accept_in give_up
accept_after_give_up k h = rw (configured_of k h) (scan_open k give_up h)
