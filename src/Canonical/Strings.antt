-- ===== src/Canonical/Strings.antt =====
-- A reader for the texts that encodeString (core/canonical.ts) writes.
use vpn_pi.Common.{
  ℕ, zero, suc, ◌+◌, ◌-◌, ◌*◌, ◌/◌, ◌%◌, ◌<◌, ◌≡◌, refl, sym, ap, ◌∙◌, ◌||◌, Option, none, some, [],
  ◌∷◌, ◌++◌, Str, ltb, nat_eq, ◌==◌, if◌then◌else◌, All, arith, append_assoc, drop, length, ◌≤◌,
  All-append,
}
use vpn_pi.Canonical.{hex4, escape, escape_all, encode_string}

-- A reader of JSON texts, independent of the printer. It gives the next code unit, or the closing
-- quote as `none`, with what follows.
hex_value : ℕ → ℕ
hex_value c = if ltb c 58 then c - 48 else c - 87

read_hex : Str → Option (Option ℕ × Str)
read_hex (a ∷ b ∷ c ∷ d ∷ s) =
    some (some (hex_value a * 4096 + hex_value b * 256 + hex_value c * 16 + hex_value d), s)
read_hex _ = none

read_escape : Str → Option (Option ℕ × Str)
read_escape [] = none
read_escape (c ∷ s) =
    if c == b'u'
    then read_hex s
    else if c == 0x22 || c == 0x5c
    then some (some c, s)
    else if c == b'b'
    then some (some 0x08, s)
    else if c == b't'
    then some (some 0x09, s)
    else if c == b'n'
    then some (some 0x0a, s)
    else if c == b'f'
    then some (some 0x0c, s)
    else if c == b'r'
    then some (some 0x0d, s)
    else none

read_unit : Str → Option (Option ℕ × Str)
read_unit [] = none
read_unit (c ∷ s) =
    if c == 0x22 then some (none, s) else if c == 0x5c then read_escape s else some (some c, s)

-- The text up to the closing quote, and the rest; `fuel` bounds the length of the text.
read_rest : ℕ → Str → Option (Str × Str)
read_rest zero s = none
read_rest (suc fuel) s = elim (read_unit s) [
  | none ↦ none
  | some (u, r) ↦ elim u [
    | none ↦ some ([], r)
    | some c ↦ elim (read_rest fuel r) [ none ↦ none | some (t, r') ↦ some (c ∷ t, r') ]
  ]
]

hex_value_digit : (d : ℕ) → d < 16 → hex_value (if ltb d 10 then 48 + d else 87 + d) ≡ d
unfolding hex_value
hex_value_digit d h = ground arith

read_hex-hex4 : (c : ℕ) (s : Str) → c < 65536 → read_hex (hex4 c ++ s) ≡ some (some c, s)
unfolding read_hex hex4
read_hex-hex4 c s h =
    rw
      (
        hex_value_digit (c / 4096) (omega arith),
        hex_value_digit (c / 256 % 16) (omega arith),
        hex_value_digit (c / 16 % 16) (omega arith),
        hex_value_digit (c % 16) (omega arith),
      )
      (ap (λ (n : ℕ). some (some n, s)) (omega arith))

read_unit-escape : (c : ℕ) (s : Str) → c < 65536 → read_unit (escape c ++ s) ≡ some (some c, s)
unfolding read_unit escape read_escape
read_unit-escape c s h = ground (arith, read_hex-hex4 c s)

-- A string of the source: every code unit has 16 bits.
abbrev pub IsUtf16 : Str → Type 0
IsUtf16 = All (λ c. c < 65536)

read_rest-escape_all :
    (fuel : ℕ) (s r : Str)
    → IsUtf16 s
    → length s < fuel
    → read_rest fuel (escape_all s ++ 0x22 ∷ r) ≡ some (s, r)
unfolding read_rest escape_all
read_rest-escape_all zero s r h k = absurd (omega arith)
read_rest-escape_all (suc fuel) [] r h k = unfold read_unit in refl
read_rest-escape_all (suc fuel) (c ∷ s) r (h, hs) k = ground (
  arith,
  append_assoc (escape c) (escape_all s) (0x22 ∷ r),
  read_unit-escape c (escape_all s ++ 0x22 ∷ r),
  read_rest-escape_all fuel s r hs,
)

-- An encoded text is self-delimiting: where two encoded texts with anything behind them agree, the
-- texts agree, and so does what is behind. No text can be crafted that runs into the next field.
pub encode_string-prefix :
    (s t r u : Str)
    → IsUtf16 s
    → IsUtf16 t
    → encode_string s ++ r ≡ encode_string t ++ u
    → (s ≡ t) × (r ≡ u)
unfolding encode_string
encode_string-prefix s t r u hs ht e =
    let fuel = suc (length s + length t) in
    let same : escape_all s ++ 0x22 ∷ r ≡ escape_all t ++ 0x22 ∷ u =
      sym (append_assoc (escape_all s) (0x22 ∷ []) r)
      ∙ ap (drop 1) e
      ∙ append_assoc (escape_all t) (0x22 ∷ []) u in
    let left = read_rest-escape_all fuel s r hs (omega arith) in
    let right = read_rest-escape_all fuel t u ht (omega arith) in
    let ends = ap (read_rest fuel) same in (cc (left, right, ends), cc (left, right, ends))

-- Every byte of an encoded text is a printable ASCII character, so that its UTF-8 bytes are its code
-- units.
abbrev pub IsPrintable : Str → Type 0
IsPrintable = All (λ c. (0x20 ≤ c) × (c < 0x7f))

hex4-IsPrintable : (c : ℕ) → c < 65536 → IsPrintable (hex4 c)
unfolding hex4
hex4-IsPrintable c h = ground arith

escape-IsPrintable : (c : ℕ) → c < 65536 → IsPrintable (escape c)
unfolding escape
escape-IsPrintable c h = ground (arith, hex4-IsPrintable c)

escape_all-IsPrintable : (s : Str) → IsUtf16 s → IsPrintable (escape_all s)
unfolding escape_all
escape_all-IsPrintable [] h = tt
escape_all-IsPrintable (c ∷ s) (h, hs) =
    All-append _ (escape c) (escape_all s) (escape-IsPrintable c h) (escape_all-IsPrintable s hs)

-- The encoded form of a text of UTF-16 code units is printable ASCII throughout.
pub encode_string-IsPrintable : (s : Str) → IsUtf16 s → IsPrintable (encode_string s)
unfolding encode_string
encode_string-IsPrintable s h =
    (omega arith, All-append _ (escape_all s) _ (escape_all-IsPrintable s h) (omega arith))
