-- ===== src/ToolGrammar/Accept.antt =====
-- The methods of `ToolCallConstraint` that take whole pieces of text (core/tool_grammar.cpp).
use desiree_ia.Prelude.{
  ℕ, zero, suc, ◌+◌, ◌-◌, ◌*◌, Bool, true, false, not, ◌&&◌, ◌||◌, Option, none, some, List, [],
  ◌∷◌, ◌++◌, length, drop, is_empty, ◌==◌, ltb, leb, if◌then◌else◌, Bytes, is_prefix,
}
use desiree_ia.ToolGrammar.{
  Phase, scanning, json, finished, Mode, string, State, Config, initial, step,
}

-- The loop `for (unsigned char c : piece) if (!step(s, c)) …`.
unfoldable pub run : Config → State → Bytes → Option State
run k s [] = some s
run k s (c ∷ cs) = elim (step k s c) [ none ↦ none | some s' ↦ run k s' cs ]

unfoldable pub reset : State
reset = initial

unfoldable pub give_up : State
give_up = record initial { phase = scanning; tail = [] }

unfoldable pub configured : Config → Bool
configured k = not (is_empty k.open_tag)

-- `text.find(pattern)`
unfoldable pub find : Bytes → Bytes → Option ℕ
find pattern [] = if is_empty pattern then some 0 else none
find pattern (c ∷ cs) =
    if is_prefix pattern (c ∷ cs)
    then some 0
    else elim (find pattern cs) [ none ↦ none | some i ↦ some (suc i) ]

unfoldable pub or_give_up : Option State → State
unfolding give_up
or_give_up none = give_up
or_give_up (some s) = s

-- `accept` while scanning, once `piece` is on the tail.
unfoldable pub scan : Config → State → Bytes → State
unfolding find or_give_up run
scan k s tail = elim (find k.open_tag tail) [
  | none ↦ record s {
    tail =
        if ltb (2 * length k.open_tag) (length tail)
        then drop (length tail - length k.open_tag) tail
        else tail;
  }
  | some i ↦
      or_give_up (run k (record initial { phase = json }) (drop (i + length k.open_tag) tail))
]

unfoldable pub accept_in : Phase → Config → State → Bytes → State
unfolding scan or_give_up run
accept_in scanning k s piece = scan k s (s.tail ++ piece)
accept_in _ k s piece = or_give_up (run k s piece)

unfoldable pub accept : Config → State → Bytes → State
unfolding configured accept_in
accept k s piece = if not (configured k) then s else accept_in s.phase k s piece

unfoldable pub constraining : State → Bool
constraining s = elim s.phase [ scanning ↦ false | _ ↦ true ]

-- `armed`: some proper prefix of the open tag ends the tail. The loop counts `k` up from 1.
armed_from : ℕ → ℕ → Config → Bytes → Bool
armed_from zero n k tail = false
armed_from (suc rounds) n k tail =
    let rest = armed_from rounds (suc n) k tail in
    if not (ltb n (length k.open_tag) && leb n (length tail))
    then false
    else if is_prefix (drop (length tail - n) tail) k.open_tag
    then true
    else rest

unfoldable pub armed : Config → State → Bool
unfolding configured constraining armed_from
armed k s =
    if not (configured k) || constraining s
    then false
    else armed_from (length k.open_tag) 1 k s.tail

unfoldable pub allows_in : Phase → Config → State → Bytes → Bool → Bool
unfolding run
allows_in scanning k s piece is_eog = true
allows_in finished k s piece is_eog = is_eog
allows_in _ k s piece is_eog =
    if is_eog || is_empty piece
    then false
    else elim (run k s piece) [ none ↦ false | some s' ↦ true ]

unfoldable pub allows : Config → State → Bytes → Bool → Bool
unfolding allows_in
allows k s piece is_eog = allows_in s.phase k s piece is_eog

is_json : Phase → Bool
is_json json = true
is_json _ = false

is_string : Mode → Bool
is_string string = true
is_string _ = false

unfoldable pub in_plain_string : State → Bool
unfolding is_json is_string
in_plain_string s =
    is_json s.phase
    && is_string s.mode
    && not s.esc
    && s.hex_left == 0
    && not s.reading_name
    && not (s.in_key && length s.stack == 1)

-- One `accept` for each token that is emitted.
unfoldable pub accept_all : Config → State → List Bytes → State
accept_all k s [] = s
accept_all k s (p ∷ ps) = accept_all k (accept k s p) ps
