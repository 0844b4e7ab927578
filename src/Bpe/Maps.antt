-- ===== src/Bpe/Maps.antt =====
-- tokenizer/bpe_tokenizer.cpp, `map_bytes` and `unmap_bytes`: one after the other.
use desiree_ia.Prelude.{
  ℕ, zero, suc, ◌+◌, ◌-◌, ◌*◌, ◌%◌, ◌≤◌, ◌<◌, Bool, true, false, ◌&&◌, Option, none, some, [], ◌∷◌,
  ◌++◌, length, take, drop, ◌≡◌, refl, ap, ◌∙◌, sym, arith, ◌==◌, ltb, leb, if◌then◌else◌, Bytes,
  inl, inr, All, equal, equal_iff, get_or, Bool-cases, ◌≢◌, length-append,
}
use mathlib.Core.Path.{subst}
use native.Mathlib.Decide.{dec_lt}
use desiree_ia.Bpe.ByteMap.{
  byte_to_unicode, map_bytes, utf8_len, unicode_to_byte, char_len, unmap_char, unmap_from,
  unmap_bytes,
}

-- The byte that a character of one or two bytes stands for.
abbrev of_code : ℕ → ℕ
of_code cp =
    if ltb cp 256
    then cp
    else if ltb cp 289
    then cp - 256
    else if ltb cp 323
    then cp - 289 + 0x7F
    else 0xAD

abbrev byte_of : Bytes → ℕ
byte_of [] = 0
byte_of (c ∷ []) = c
byte_of (c ∷ d ∷ rest) = of_code (c % 32 * 64 + d % 64)

all_below : ℕ → (ℕ → Bool) → Bool
all_below zero p = true
all_below (suc n) p = p n && all_below n p

all_below-apply : (n : ℕ) (p : ℕ → Bool) (x : ℕ) → all_below n p ≡ true → x < n → p x ≡ true
unfolding all_below
all_below-apply zero p x h lt = absurd (omega arith)
all_below-apply (suc n) p x h lt = ground (arith, all_below-apply n p x)

-- The character of a byte gives the byte back, and its first byte gives its length.
abbrev is_sound : ℕ → Bool
is_sound b =
    (byte_of (byte_to_unicode b) == b)
    && (utf8_len (get_or (byte_to_unicode b) 0 0) == length (byte_to_unicode b))
    && leb 1 (length (byte_to_unicode b))

table : all_below 256 is_sound ≡ true
unfolding all_below byte_to_unicode utf8_len
table = refl

is_sound_all : (b : ℕ) → b < 256 → is_sound b ≡ true
is_sound_all b h = all_below-apply 256 is_sound b table h

module _ (b : ℕ) (h : b < 256) where
  byte_of-byte_to_unicode : byte_of (byte_to_unicode b) ≡ b
  byte_of-byte_to_unicode = ground (arith, is_sound_all b h)

  utf8_len-byte_to_unicode : utf8_len (get_or (byte_to_unicode b) 0 0) ≡ length (byte_to_unicode b)
  utf8_len-byte_to_unicode = ground (arith, is_sound_all b h)

  length-byte_to_unicode : 1 ≤ length (byte_to_unicode b)
  length-byte_to_unicode = ground (arith, is_sound_all b h)

abbrev Finds : ℕ → Bytes → Option ℕ → Type 0
Finds n ch none = (b : ℕ) → b < n → byte_to_unicode b ≢ ch
Finds n ch (some c) = (c < n) × (byte_to_unicode c ≡ ch)

Finds-none :
    (n : ℕ) (ch : Bytes)
    → byte_to_unicode n ≢ ch
    → (o : Option ℕ) → Finds n ch o
    → Finds (suc n) ch o
Finds-none n ch d (some c) h = (omega arith, h.1)
Finds-none n ch d none h = λ b lt e. elim (dec_lt b n) [
  | yes p ↦ h b p e
  | no p ↦ d (subst (λ x. byte_to_unicode x ≡ ch) (same b lt p) e)
]
  where
    same : (b : ℕ) → b < suc n → ¬ (b < n) → b ≡ n
    same b lt p = omega arith

unicode_to_byte-Finds : (n : ℕ) (ch : Bytes) → Finds n ch (unicode_to_byte n ch)
unfolding unicode_to_byte
unicode_to_byte-Finds zero ch = λ b h e. elim h [ ]
unicode_to_byte-Finds (suc n) ch = elim (Bool-cases (equal (byte_to_unicode n) ch)) [
  | inl y ↦ rw y (omega arith, (equal_iff (byte_to_unicode n) ch).0 y)
  | inr w ↦ rw w (
      Finds-none n ch (λ e. ne w ((equal_iff (byte_to_unicode n) ch).1 e)) _
        (unicode_to_byte-Finds n ch))
]
  where
    ne : {x : Bool} → x ≡ false → x ≡ true → ⊥
    ne p q = cc

unicode_to_byte_self : (b : ℕ) → b < 256 → unicode_to_byte 256 (byte_to_unicode b) ≡ some b
unicode_to_byte_self b h =
    go (unicode_to_byte 256 (byte_to_unicode b)) (unicode_to_byte-Finds 256 (byte_to_unicode b))
  where
    go : (o : Option ℕ) → Finds 256 (byte_to_unicode b) o → o ≡ some b
    go none f = absurd (f b h refl)
    go (some c) (lt, e) =
        ap some (sym (byte_of-byte_to_unicode c lt) ∙ ap byte_of e ∙ byte_of-byte_to_unicode b h)

take-append : (p q : Bytes) → take (length p) (p ++ q) ≡ p
take-append [] q = refl
take-append (x ∷ p) q = ap (λ r. x ∷ r) (take-append p q)

drop-append : (p q : Bytes) → drop (length p) (p ++ q) ≡ q
drop-append [] q = refl
drop-append (x ∷ p) q = drop-append p q

char_len-append :
    (c : ℕ) (cs rest : Bytes)
    → utf8_len c ≡ length (c ∷ cs)
    → char_len c (cs ++ rest) ≡ length (c ∷ cs)
unfolding char_len
char_len-append c cs rest u = ground (arith, length-append cs rest)

-- One character at the front.
unmap_from-char :
    (f : ℕ) (ch rest : Bytes) (b : ℕ)
    → 1 ≤ length ch
    → utf8_len (get_or ch 0 0) ≡ length ch
    → unmap_char ch ≡ b ∷ []
    → unmap_from (suc f) (ch ++ rest) ≡ b ∷ unmap_from f rest
unfolding unmap_from
unmap_from-char f [] rest b l u e = absurd (omega arith)
unmap_from-char f (c ∷ cs) rest b l u e =
    rw (char_len-append c cs rest u, take-append (c ∷ cs) rest, drop-append (c ∷ cs) rest, e)

unmap_char-byte : (b : ℕ) → b < 256 → unmap_char (byte_to_unicode b) ≡ b ∷ []
unfolding unmap_char
unmap_char-byte b h = rw (unicode_to_byte_self b h, unmap_char)

unmap_from-map_bytes :
    (s : Bytes) (f : ℕ) → All (λ b. b < 256) s → length s ≤ f → unmap_from f (map_bytes s) ≡ s
unfolding map_bytes
unmap_from-map_bytes [] zero h l = unfold unmap_from in refl
unmap_from-map_bytes [] (suc f) h l = unfold unmap_from in refl
unmap_from-map_bytes (b ∷ s) zero h l = absurd (omega arith)
unmap_from-map_bytes (b ∷ s) (suc f) h l =
    unmap_from-char f (byte_to_unicode b) (map_bytes s) b (length-byte_to_unicode b h.0)
      (utf8_len-byte_to_unicode b h.0) (unmap_char-byte b h.0)
    ∙ ap (λ r. b ∷ r) (unmap_from-map_bytes s f h.1 (omega arith))

length-map_bytes : (s : Bytes) → All (λ b. b < 256) s → length s ≤ length (map_bytes s)
unfolding map_bytes
length-map_bytes [] h = omega arith
length-map_bytes (b ∷ s) h = omega (
  arith,
  length-append (byte_to_unicode b) (map_bytes s),
  length-byte_to_unicode b h.0,
  length-map_bytes s h.1,
)

-- What a text of bytes is mapped to for the vocabulary is mapped back to that text.
pub unmap_bytes-map_bytes : (s : Bytes) → All (λ b. b < 256) s → unmap_bytes (map_bytes s) ≡ s
unfolding unmap_bytes
unmap_bytes-map_bytes s h = unmap_from-map_bytes s _ h (length-map_bytes s h)
