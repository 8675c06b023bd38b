-- ===== src/Canonical.antt =====
-- core/canonical.ts: the exact bytes that are signed. `none` is a thrown error.
pub mod Strings
use vpn_pi.Common.{
  ℕ, zero, suc, ◌+◌, ◌/◌, ◌%◌, Bool, true, false, ◌||◌, Option, none, some, List, [], ◌∷◌, ◌++◌,
  Str, lit, str_eq, ltb, leb, nat_beq, nat_eq, ◌==◌, if◌then◌else◌,
}
use vpn_pi.Json.{
  Number, integer, fraction, Json, Items, Fields, null, bool, num, str, arr, obj, nil, cons, end,
  field, number_text,
}

-- `code.toString(16).padStart(4, "0")`, for a code unit.
abbrev hex_digit : ℕ → ℕ
hex_digit d = if ltb d 10 then 48 + d else 87 + d

unfoldable pub hex4 : ℕ → Str
hex4 c =
    hex_digit (c / 4096)
    ∷ hex_digit (c / 256 % 16)
    ∷ hex_digit (c / 16 % 16)
    ∷ hex_digit (c % 16)
    ∷ []

-- One round of the loop of `encodeString`: what is appended for a code unit.
unfoldable pub escape : ℕ → Str
escape c =
    if c == 0x22
    then 0x5c ∷ 0x22 ∷ []
    else if c == 0x5c
    then 0x5c ∷ 0x5c ∷ []
    else if c == 0x08
    then 0x5c ∷ b'b' ∷ []
    else if c == 0x09
    then 0x5c ∷ b't' ∷ []
    else if c == 0x0a
    then 0x5c ∷ b'n' ∷ []
    else if c == 0x0c
    then 0x5c ∷ b'f' ∷ []
    else if c == 0x0d
    then 0x5c ∷ b'r' ∷ []
    else if ltb c 0x20 || leb 0x7f c
    then 0x5c ∷ b'u' ∷ hex4 c
    else c ∷ []

unfoldable pub escape_all : Str → Str
unfolding escape hex4
escape_all [] = []
escape_all (c ∷ s) = escape c ++ escape_all s

unfoldable pub encode_string : Str → Str
unfolding escape_all
encode_string s = 0x22 ∷ (escape_all s ++ 0x22 ∷ [])

-- The order of `sort()` on texts: by code units.
unfoldable pub str_leb : Str → Str → Bool
str_leb [] t = true
str_leb (x ∷ xs) [] = false
str_leb (x ∷ xs) (y ∷ ys) =
    let rest = str_leb xs ys in if ltb x y then true else if nat_beq x y then rest else false

insert_key : Str × Str → List (Str × Str) → List (Str × Str)
insert_key e [] = e ∷ []
insert_key (k, v) ((j, w) ∷ es) =
    if str_leb k j then (k, v) ∷ (j, w) ∷ es else (j, w) ∷ insert_key (k, v) es

sort_keys : List (Str × Str) → List (Str × Str)
sort_keys [] = []
sort_keys (e ∷ es) = insert_key e (sort_keys es)

-- `xs.join(",")`.
join_comma : List Str → Str
join_comma [] = []
join_comma (x ∷ []) = x
join_comma (x ∷ y ∷ ys) = x ++ (lit "," ++ join_comma (y ∷ ys))

members : List (Str × Str) → List Str
members [] = []
members ((k, v) ∷ es) = (encode_string k ++ (lit ":" ++ v)) ∷ members es

abbrev both {ℓ} : {A : Type ℓ} → Option A → Option (List A) → Option (List A)
both none r = none
both (some a) none = none
both (some a) (some as') = some (a ∷ as')

abbrev keyed : Str → Option Str → Option (Str × Str)
keyed k none = none
keyed k (some v) = some (k, v)

abbrev encode_number : Number → Option Str
encode_number (integer negative n) = some (number_text (integer negative n))
encode_number (fraction text) = none

abbrev bracket : Option (List Str) → Option Str
bracket none = none
bracket (some xs) = some (lit "[" ++ (join_comma xs ++ lit "]"))

-- The fields are encoded first and sorted by their keys then, which gives the same text as sorting
-- the keys first.
abbrev brace : Option (List (Str × Str)) → Option Str
brace none = none
brace (some es) = some (lit "{" ++ (join_comma (members (sort_keys es)) ++ lit "}"))

unfoldable mutual
  unfolding join_comma members sort_keys insert_key str_leb

  pub canonicalize : Json → Option Str
  canonicalize null = some (lit "null")
  canonicalize (bool true) = some (lit "true")
  canonicalize (bool false) = some (lit "false")
  canonicalize (num n) = encode_number n
  canonicalize (str s) = some (encode_string s)
  canonicalize (arr xs) = bracket (encode_items xs)
  canonicalize (obj fs) = brace (encode_fields fs)

  pub encode_items : Items → Option (List Str)
  encode_items nil = some []
  encode_items (cons x xs) = both (canonicalize x) (encode_items xs)

  pub encode_fields : Fields → Option (List (Str × Str))
  encode_fields end = some []
  encode_fields (field k v fs) = both (keyed k (canonicalize v)) (encode_fields fs)
