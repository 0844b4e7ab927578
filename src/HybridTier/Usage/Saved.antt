-- ===== src/HybridTier/Usage/Saved.antt =====
-- ssd_tier/hybrid_tier.cpp, `save_usage` and then `load_usage`.
use desiree_ia.Prelude.{
  ℕ, suc, ◌^◌, ◌<◌, true, false, some, List, [], ◌∷◌, ◌++◌, is_empty, is_digit, ltb, ◌==◌, equal,
  equal_iff, Bytes, All, All-append, ◌≡◌, refl, sym, ap, ◌∙◌, arith, append-nil, append_assoc, zero,
  ◌/◌, ◌%◌, Bool-cases, inl, inr,
}
use mathlib.Core.Path.{subst}
use desiree_ia.Prelude.Decimal.{is_space, digits, scan, scan-digits, digits-first}
use desiree_ia.HybridTier.Keys.{make_key, unpack_key}
use desiree_ia.Mirror.Files.{Files, Access, open_read}
use desiree_ia.HybridTier.Usage.{
  put, lines, skip, fitting, read_digits, read_signed, read_number, read_char, read_next, read_line,
  load_lines, line_of, text_of, load_usage, save_usage,
}

scan-stop : (n : ℕ) (c : ℕ) (text : Bytes) → is_digit c ≡ false → scan n (c ∷ text) ≡ (n, c ∷ text)
unfolding scan
scan-stop n c text h = rw h refl

-- What is written is read back, whatever follows it that is no digit.
read_cons :
    (n c : ℕ) (rest text : Bytes)
    → n < 2 ^ 32
    → is_digit c ≡ true
    → scan 0 (c ∷ rest) ≡ (n, text)
    → read_number (c ∷ rest) ≡ some (n, text)
unfolding read_number skip read_signed read_digits fitting
read_cons n c rest text h d s =
    let blank : is_space c ≡ false = ground arith in
    let minus : (c == b'-') ≡ false = ground arith in
    let plus : (c == b'+') ≡ false = ground arith in
    let fits : ltb n (2 ^ 32) ≡ true = ground arith in
    rw (blank, skip)
      (rw (minus, plus, read_signed) (rw (d, read_digits) (rw s (rw (fits, fitting) refl))))

-- Behind a number, what begins with no digit.
abbrev Stops : Bytes → Type 0
Stops [] = Unit
Stops (c ∷ text) = is_digit c ≡ false

scan-Stops : (n : ℕ) (text : Bytes) → Stops text → scan n text ≡ (n, text)
unfolding scan
scan-Stops n [] h = refl
scan-Stops n (c ∷ text) h = scan-stop n c text h

written-read :
    (n : ℕ) (text : Bytes)
    → n < 2 ^ 32
    → Stops text
    → read_number (digits 10 n ++ text) ≡ some (n, text)
written-read n text h stops =
    let (first, rest, e, is) = digits-first 9 n (omega arith) in
    let whole : digits 10 n ++ text ≡ first ∷ (rest ++ text) = ap (λ l. l ++ text) e in
    let s : scan 0 (first ∷ (rest ++ text)) ≡ (n, text) =
      ap (scan 0) (sym whole) ∙ scan-digits 10 n text (omega arith) ∙ scan-Stops n text stops in
    ap read_number whole ∙ read_cons n first (rest ++ text) text h is s

next-read :
    (n : ℕ) (text : Bytes)
    → n < 2 ^ 32
    → Stops text
    → read_next (b':' ∷ (digits 10 n ++ text)) ≡ some (n, text)
unfolding read_next read_char skip
next-read n text h stops = written-read n text h stops

-- The last number of a line.
last-read : (n : ℕ) → n < 2 ^ 32 → read_next (b':' ∷ digits 10 n) ≡ some (n, [])
last-read n h =
    ap (λ l. read_next (b':' ∷ l)) (sym (append-nil (digits 10 n))) ∙ next-read n [] h tt

-- The numbers of a line.
abbrev entry : ℕ → ℕ → ℕ × ℕ × ℕ × ℕ
entry key count = (key / 2 ^ 48 % 2 ^ 32, key / 2 ^ 8 % 2 ^ 32, key % 2 ^ 8, count)

abbrev part_text : ℕ → ℕ → Bytes
part_text key count = b':' ∷ (digits 10 (key % 2 ^ 8) ++ (b':' ∷ digits 10 count))

abbrev idx_text : ℕ → ℕ → Bytes
idx_text key count = b':' ∷ (digits 10 (key / 2 ^ 8 % 2 ^ 32) ++ part_text key count)

line_of-parts :
    (key count : ℕ) → line_of (key, count) ≡ digits 10 (key / 2 ^ 48 % 2 ^ 32) ++ idx_text key count
unfolding line_of unpack_key
line_of-parts key count = refl

read_line-parts :
    (key count : ℕ)
    → count < 2 ^ 32
    → read_line (digits 10 (key / 2 ^ 48 % 2 ^ 32) ++ idx_text key count) ≡ some (entry key count)
unfolding read_line
read_line-parts key count h =
    let e1 = written-read (key / 2 ^ 48 % 2 ^ 32) (idx_text key count) (omega arith) refl in
    let e2 = next-read (key / 2 ^ 8 % 2 ^ 32) (part_text key count) (omega arith) refl in
    let e3 = next-read (key % 2 ^ 8) (b':' ∷ digits 10 count) (omega arith) refl in
    rw (e1, read_line) (rw (e2, e3, last-read count h) refl)

read_line-line_of :
    (key count : ℕ) → count < 2 ^ 32 → read_line (line_of (key, count)) ≡ some (entry key count)
read_line-line_of key count h = ap read_line (line_of-parts key count) ∙ read_line-parts key count h

-- A line has no newline in it.
abbrev InLine : ℕ → Type 0
InLine c = (c == b'\n') ≡ false

digits-InLine : (f n : ℕ) → All InLine (digits f n)
unfolding digits
digits-InLine zero n = tt
digits-InLine (suc f) n = elim (Bool-cases (ltb n 10)) [
  | inl e ↦ rw (e, digits) (ground arith, tt)
  | inr e ↦
      rw (e, digits)
        (All-append InLine (digits f (n / 10)) _ (digits-InLine f (n / 10)) (ground arith, tt))
]

line_of-InLine : (key count : ℕ) → All InLine (line_of (key, count))
line_of-InLine key count = subst (All InLine) (sym (line_of-parts key count)) (
    All-append InLine _ (idx_text key count) (digits-InLine 10 _) (
      refl,
      All-append InLine _ (part_text key count) (digits-InLine 10 _) (
        refl,
        All-append InLine _ (b':' ∷ digits 10 count) (digits-InLine 10 _)
            (refl, digits-InLine 10 count),
      ),
    ))

lines-append :
    (begun line rest : Bytes)
    → All InLine line
    → lines begun (line ++ (b'\n' ∷ rest)) ≡ (begun ++ line) ∷ lines [] rest
unfolding lines
lines-append begun [] rest h = ap (λ l. l ∷ lines [] rest) (sym (append-nil begun))
lines-append begun (c ∷ line) rest h =
    rw (h.0, lines)
      (lines-append (begun ++ c ∷ []) line rest h.1
        ∙ ap (λ l. l ∷ lines [] rest) (append_assoc begun (c ∷ []) line))

-- Keys that are none of those before.
abbrev Others : ℕ → List (ℕ × ℕ) → Type 0
Others key = All (λ p. (p.0 == key) ≡ false)

put-Others :
    (key count : ℕ) (usage : List (ℕ × ℕ))
    → Others key usage
    → put key count usage ≡ usage ++ (key, count) ∷ []
unfolding put
put-Others key count [] h = refl
put-Others key count ((k, n) ∷ usage) h =
    rw (h.0, put) (ap (λ l. (k, n) ∷ l) (put-Others key count usage h.1))

-- Each key is one that `make_key` gives of what `unpack_key` makes of it, no key stands twice, and
-- the counts have 32 bits.
abbrev pub IsUsage : List (ℕ × ℕ) → Type 0
IsUsage [] = Unit
IsUsage ((key, count) ∷ usage) =
    (make_key (unpack_key key).0 (unpack_key key).1 (unpack_key key).2 ≡ key)
    × (count < 2 ^ 32)
    × All (λ p. (key == p.0) ≡ false) usage
    × IsUsage usage

later-Others :
    (front : List (ℕ × ℕ)) (key count : ℕ) (usage : List (ℕ × ℕ))
    → All (λ p. (key == p.0) ≡ false) usage
    → All (λ p. Others p.0 front) usage
    → All (λ p. Others p.0 (front ++ (key, count) ∷ [])) usage
later-Others front key count [] h k = tt
later-Others front key count (p ∷ usage) h k = (
  All-append _ front ((key, count) ∷ []) k.0 (h.0, tt),
  later-Others front key count usage h.1 k.1,
)

load-line :
    (key count : ℕ) (front : List (ℕ × ℕ)) (rest : List Bytes)
    → make_key (unpack_key key).0 (unpack_key key).1 (unpack_key key).2 ≡ key
    → count < 2 ^ 32
    → Others key front
    → load_lines (line_of (key, count) ∷ rest) front ≡ load_lines rest (front ++ (key, count) ∷ [])
unfolding load_lines unpack_key
load-line key count front rest m h k =
    rw (read_line-line_of key count h, load_lines)
      (ap (load_lines rest) (ap (λ j. put j count front) m ∙ put-Others key count front k))

load_lines-text_of :
    (usage front : List (ℕ × ℕ))
    → IsUsage usage
    → All (λ p. Others p.0 front) usage
    → load_lines (lines [] (text_of usage)) front ≡ front ++ usage
unfolding text_of lines load_lines
load_lines-text_of [] front h k = sym (append-nil front)
load_lines-text_of ((key, count) ∷ usage) front h k =
    ap (λ ls. load_lines ls front)
      (lines-append [] (line_of (key, count)) (text_of usage) (line_of-InLine key count))
    ∙ load-line key count front (lines [] (text_of usage)) h.0 h.1 k.0
    ∙ load_lines-text_of usage (front ++ (key, count) ∷ []) h.3
        (later-Others front key count usage h.2 k.1)
    ∙ append_assoc front ((key, count) ∷ []) usage

equal_self : (text : Bytes) → equal text text ≡ true
equal_self text = (equal_iff text text).1 refl

-- Where the usage file has a name and can be written and read, loading it into an empty map after
-- saving a map gives that map, in its order.
pub load_usage-save_usage :
    (access : Access) (files : Files) (path : Bytes) (usage : List (ℕ × ℕ))
    → is_empty path ≡ false
    → access.writable path ≡ true
    → access.readable path ≡ true
    → IsUsage usage
    → load_usage access (save_usage access files path usage) path [] ≡ usage
unfolding load_usage save_usage open_read
load_usage-save_usage access files path usage named writable readable h =
    rw (named, readable, writable, equal_self path)
      (load_lines-text_of usage [] h (none_before usage))
  where
    none_before : (us : List (ℕ × ℕ)) → All (λ p. Others p.0 []) us
    none_before [] = tt
    none_before (p ∷ us) = (tt, none_before us)
