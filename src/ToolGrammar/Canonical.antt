-- ===== src/ToolGrammar/Canonical.antt =====
-- core/tool_grammar.cpp: the call that the header promises, byte by byte.
use desiree_ia.Prelude.{
  ℕ, suc, ◌+◌, ◌≤◌, true, false, ◌&&◌, ◌==◌, some, List, [], ◌∷◌, ◌++◌, length, get_or, ◌≡◌, ◌≢◌,
  refl, sym, ap, ◌∙◌, arith, inl, inr, Bytes, codes, equal, equal_iff, is_prefix, is_prefix-append,
  append_assoc, append-nil, length-append, is_empty, if◌then◌else◌,
}
use desiree_ia.ToolGrammar.{
  Phase, json, close, finished, string, done, State, Config, initial, is_ws, any_name,
  name_prefix_ok, step, step_fuel, step_phase, step_mode, step_close, after_value,
}
use desiree_ia.ToolGrammar.Accept.{run}
use desiree_ia.ToolGrammar.Names.{Member}

-- Bytes that a string holds as they are.
abbrev pub IsPlain : Bytes → Type 0
IsPlain [] = Unit
IsPlain (c ∷ cs) = (0x20 ≤ c) × (c ≢ b'"') × (c ≢ b'\\') × IsPlain cs

abbrev pub opened : State
opened = record initial { phase = json }

-- Inside the value of "name", `m` read so far.
abbrev in_name : Bytes → State
in_name m = record initial {
  phase = json;
  mode = string;
  stack = b'{' ∷ [];
  key = codes "name";
  top_key = codes "name";
  name = m;
  reading_name = true;
  started = true;
}

-- The object is closed.
abbrev pub closed : Bytes → Phase → ℕ → State
closed m ph i = record initial {
  phase = ph;
  mode = done;
  stack = [];
  in_key = true;
  key = codes "arguments";
  top_key = codes "arguments";
  name = m;
  close_pos = i;
  started = true;
}

run_head :
    (k : Config) (rest : Bytes)
    → run k opened (codes "{\"name\": \"" ++ rest) ≡ run k (in_name []) rest
unfolding run step step_fuel step_phase step_mode equal is_prefix
run_head k rest = refl

run_tail :
    (k : Config) (m rest : Bytes)
    → name_prefix_ok k.names m true ≡ true
    → run k (in_name m) (codes "\", \"arguments\": {}}" ++ rest)
      ≡ run k (closed m (if is_empty k.close_tag then finished else close) 0) rest
unfolding run step step_fuel step_phase step_mode equal is_prefix after_value
run_tail k m rest h = ground (arith, h)

name_byte :
    (k : Config) (m : Bytes) (c : ℕ) (rest : Bytes)
    → 0x20 ≤ c
    → c ≢ b'"'
    → c ≢ b'\\'
    → name_prefix_ok k.names (m ++ c ∷ []) false ≡ true
    → run k (in_name m) (c ∷ rest) ≡ run k (in_name (m ++ c ∷ [])) rest
unfolding run step step_fuel step_phase step_mode
name_byte k m c rest lo nq nb h = ground arith

any_name-prefix : (ns : List Bytes) (m q : Bytes) → Member (m ++ q) ns → any_name ns m false ≡ true
unfolding any_name
any_name-prefix [] m q h = absurd h
any_name-prefix (n ∷ ns) m q (inl e) = rw (← e) (ground (arith, is_prefix-append m q))
any_name-prefix (n ∷ ns) m q (inr h) = ground (arith, any_name-prefix ns m q h)

name_prefix_ok-prefix :
    (ns : List Bytes) (m q : Bytes) → Member (m ++ q) ns → name_prefix_ok ns m false ≡ true
unfolding name_prefix_ok
name_prefix_ok-prefix [] m q h = refl
name_prefix_ok-prefix (n ∷ ns) m q h = any_name-prefix (n ∷ ns) m q h

any_name_self : (ns : List Bytes) (m : Bytes) → Member m ns → any_name ns m true ≡ true
unfolding any_name
any_name_self [] m h = absurd h
any_name_self (n ∷ ns) m (inl e) = ground (arith, equal_iff n m)
any_name_self (n ∷ ns) m (inr h) = ground (arith, any_name_self ns m h)

name_prefix_ok_self : (ns : List Bytes) (m : Bytes) → Member m ns → name_prefix_ok ns m true ≡ true
unfolding name_prefix_ok
name_prefix_ok_self [] m h = absurd h
name_prefix_ok_self (n ∷ ns) m h = any_name_self (n ∷ ns) m h

run_name :
    (k : Config) (n m rest : Bytes)
    → IsPlain n
    → Member (m ++ n) k.names
    → run k (in_name m) (n ++ rest) ≡ run k (in_name (m ++ n)) rest
run_name k [] m rest pl h = rw (append-nil m)
run_name k (c ∷ n) m rest pl h =
    let split : m ++ (c ∷ n) ≡ (m ++ c ∷ []) ++ n = sym (append_assoc m (c ∷ []) n) in
    let h' : Member ((m ++ c ∷ []) ++ n) k.names = rw split at h in
    name_byte k m c (n ++ rest) pl.0 pl.1 pl.2 (name_prefix_ok-prefix k.names (m ++ c ∷ []) n h')
    ∙ run_name k n (m ++ c ∷ []) rest pl.3 h'
    ∙ ap (λ x. run k (in_name x) rest) (sym split)

get_or-append : (p : Bytes) (c : ℕ) (r : Bytes) → get_or (p ++ c ∷ r) (length p) 0 ≡ c
get_or-append [] c r = refl
get_or-append (x ∷ p) c r = get_or-append p c r

not_blank : (p : Bytes) (c : ℕ) → (p ≡ [] → is_ws c ≡ false) → (length p == 0 && is_ws c) ≡ false
not_blank [] c w = w refl
not_blank (x ∷ p) c w = ground arith

module _ (k : Config) (m p : Bytes) (c : ℕ) (r : Bytes) (e : k.close_tag ≡ p ++ c ∷ r) where
  expected : get_or k.close_tag (length p) 0 ≡ c
  expected = rw e (get_or-append p c r)

  tag_length : length k.close_tag ≡ length p + suc (length r)
  tag_length = rw e (length-append p (c ∷ r))

  step-close :
      (p ≡ [] → is_ws c ≡ false)
      → step k (closed m close (length p)) c ≡ (
          if length r == 0
          then some (closed m finished (suc (length p)))
          else some (closed m close (suc (length p))))
  unfolding step step_fuel step_phase step_close
  step-close w = ground (arith, expected, tag_length, not_blank p c w)

run-cons :
    (k : Config) (s s' : State) (c : ℕ) (cs : Bytes)
    → step k s c ≡ some s'
    → run k s (c ∷ cs) ≡ run k s' cs
unfolding run
run-cons k s s' c cs e = rw (e, run)

p-concat-ne : (p : Bytes) (c : ℕ) → p ++ c ∷ [] ≢ []
p-concat-ne [] c = λ e. cc
p-concat-ne (x ∷ p) c = λ e. cc

length-concat : (p : Bytes) (c : ℕ) → length (p ++ c ∷ []) ≡ suc (length p)
length-concat p c = omega (arith, length-append p (c ∷ []))

-- The rest of the closing tag, from any place in it.
run_close :
    (k : Config) (m p : Bytes) (c : ℕ) (r : Bytes)
    → k.close_tag ≡ p ++ c ∷ r
    → (p ≡ [] → is_ws c ≡ false)
    → run k (closed m close (length p)) (c ∷ r) ≡ some (closed m finished (length k.close_tag))
unfolding run
run_close k m p c [] e w =
    rw (step-close k m p c [] e w, run, tag_length k m p c [] e)
      (ap (λ n. some (closed m finished n)) (omega arith))
run_close k m p c (d ∷ r) e w =
    let e' : k.close_tag ≡ (p ++ c ∷ []) ++ d ∷ r = e ∙ sym (append_assoc p (c ∷ []) (d ∷ r)) in
    run-cons k _ _ c (d ∷ r) (step-close k m p c (d ∷ r) e w ∙ more (length r))
    ∙ rw (length-concat p c) at
        (run_close k m (p ++ c ∷ []) d r e' (λ n. absurd (p-concat-ne p c n)))
  where
    more :
        (n : ℕ)
        → (if suc n == 0
            then some (closed m finished (suc (length p)))
            else some (closed m close (suc (length p))))
          ≡ some (closed m close (suc (length p)))
    more n = ground arith

run_closing_tag :
    (k : Config) (m : Bytes)
    → is_ws (get_or k.close_tag 0 0) ≡ false
    → run k (closed m (if is_empty k.close_tag then finished else close) 0) k.close_tag
      ≡ some (closed m finished (length k.close_tag))
unfolding run
run_closing_tag k m w = go k.close_tag refl w
  where
    go :
        (t : Bytes)
        → k.close_tag ≡ t
        → is_ws (get_or t 0 0) ≡ false
        → run k (closed m (if is_empty t then finished else close) 0) t
          ≡ some (closed m finished (length k.close_tag))
    go [] e w = ap (λ t. some (closed m finished (length t))) (sym e)
    go (c ∷ r) e w = run_close k m [] c r e (λ _. w)

-- The text `{"name": "<n>", "arguments": {}}` followed by the closing tag is let through byte by
-- byte and ends the call, for every declared name `n` of plain bytes, where the closing tag does
-- not begin with a blank.
pub run_canonical :
    (k : Config) (n : Bytes)
    → Member n k.names
    → IsPlain n
    → is_ws (get_or k.close_tag 0 0) ≡ false
    → run k opened (codes "{\"name\": \"" ++ (n ++ (codes "\", \"arguments\": {}}" ++ k.close_tag)))
      ≡ some (closed n finished (length k.close_tag))
run_canonical k n h pl w =
    run_head k _
    ∙ run_name k n [] _ pl h
    ∙ run_tail k n k.close_tag (name_prefix_ok_self k.names n h)
    ∙ run_closing_tag k n w
