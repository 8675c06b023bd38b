-- ===== src/Tests/Toy.antt =====
-- A platform that behaves as documented, and is of no use: the bytes of a value are the program
-- that builds it on a stack, a signature is the key before the message, a date is one unit.
use vpn_pi.Common.{
  ℕ, ◌+◌, ◌-◌, ◌≡◌, refl, ap, ◌∙◌, sym, subst, true, false, Option, none, some, List, [], ◌∷◌, ◌++◌,
  append_assoc, append-nil, Str, str_eq, str_beq_iff, ◌==◌, nat_eq, leb, length, drop,
  drop-append_left, starts_with, starts_with-append, trim, trim_start, is_space, if◌then◌else◌,
  arith, some-injective,
}
use mathlib.Core.List.{reverse, reverse-append, reverse-reverse}
use vpn_pi.Json.{
  Json, null, bool, num, str, arr, obj, Items, nil, cons, Fields, end, field, integer, fraction,
}
use vpn_pi.Canonical.{canonicalize}
use vpn_pi.Envelope.{sealed_contents}
use vpn_pi.Envelope.RoundTrip.{IsRead}
use vpn_pi.Platform.{Bytes, Platform, IsLawful}

pub data Value : Type 0 where
  text : Str → Value
  json : Json → Value
  items : Items → Value
  fields : Fields → Value

abbrev push_unit : ℕ → List Value → List Value
push_unit c (text s ∷ st) = text (c ∷ s) ∷ st
push_unit c st = st

abbrev with_text : (Str → Json) → List Value → List Value
with_text f (text s ∷ st) = json (f s) ∷ st
with_text f st = st

abbrev with_unit : (ℕ → Json) → List Value → List Value
with_unit f (text (n ∷ []) ∷ st) = json (f n) ∷ st
with_unit f st = st

abbrev one_more : List Value → List Value
one_more (items xs ∷ json x ∷ st) = items (cons x xs) ∷ st
one_more st = st

abbrev one_field : List Value → List Value
one_field (fields fs ∷ json v ∷ text k ∷ st) = fields (field k v fs) ∷ st
one_field st = st

abbrev closed : List Value → List Value
closed (items xs ∷ st) = json (arr xs) ∷ st
closed (fields fs ∷ st) = json (obj fs) ∷ st
closed st = st

abbrev operate : ℕ → List Value → List Value
operate t st =
    if t == 0
    then json null ∷ st
    else if t == 1
    then json (bool false) ∷ st
    else if t == 2
    then json (bool true) ∷ st
    else if t == 3
    then text [] ∷ st
    else if t == 4
    then with_text str st
    else if t == 5
    then with_text (λ s. num (fraction s)) st
    else if t == 6
    then with_unit (λ n. num (integer false n)) st
    else if t == 7
    then with_unit (λ n. num (integer true n)) st
    else if t == 8
    then items nil ∷ st
    else if t == 9
    then one_more st
    else if t == 10
    then fields end ∷ st
    else if t == 11
    then one_field st
    else closed st

unfoldable pub execute : List ℕ → List Value → List Value
execute [] st = st
execute (t ∷ ts) st = execute ts (if leb 16 t then push_unit (t - 16) st else operate t st)

unfoldable pub units : Str → List ℕ
units [] = 3 ∷ []
units (c ∷ s) = units s ++ (c + 16) ∷ []

execute-units :
    (s : Str) (ts : List ℕ) (st : List Value)
    → execute (units s ++ ts) st ≡ execute ts (text s ∷ st)
unfolding units execute
execute-units [] ts st = refl
execute-units (c ∷ s) ts st =
    let large : leb 16 (c + 16) ≡ true = ground arith in
    let back : c + 16 - 16 ≡ c = omega arith in
    rw (append_assoc (units s) ((c + 16) ∷ []) ts, execute-units s ((c + 16) ∷ ts) st, large, back)
      refl

unfoldable mutual
  pub program : Json → List ℕ
  program null = 0 ∷ []
  program (bool false) = 1 ∷ []
  program (bool true) = 2 ∷ []
  program (str s) = units s ++ 4 ∷ []
  program (num (fraction s)) = units s ++ 5 ∷ []
  program (num (integer false n)) = units (n ∷ []) ++ 6 ∷ []
  program (num (integer true n)) = units (n ∷ []) ++ 7 ∷ []
  program (arr xs) = items_program xs ++ 12 ∷ []
  program (obj fs) = fields_program fs ++ 12 ∷ []

  pub items_program : Items → List ℕ
  items_program nil = 8 ∷ []
  items_program (cons x xs) = program x ++ (items_program xs ++ 9 ∷ [])

  pub fields_program : Fields → List ℕ
  fields_program end = 10 ∷ []
  fields_program (field k v fs) = units k ++ (program v ++ (fields_program fs ++ 11 ∷ []))

mutual
  unfolding program execute

  execute-program :
      (v : Json) (ts : List ℕ) (st : List Value)
      → execute (program v ++ ts) st ≡ execute ts (json v ∷ st)
  execute-program null ts st = refl
  execute-program (bool false) ts st = refl
  execute-program (bool true) ts st = refl
  execute-program (str s) ts st =
      rw (append_assoc (units s) (4 ∷ []) ts) (execute-units s (4 ∷ ts) st)
  execute-program (num (fraction s)) ts st =
      rw (append_assoc (units s) (5 ∷ []) ts) (execute-units s (5 ∷ ts) st)
  execute-program (num (integer false n)) ts st =
      rw (append_assoc (units (n ∷ [])) (6 ∷ []) ts) (execute-units (n ∷ []) (6 ∷ ts) st)
  execute-program (num (integer true n)) ts st =
      rw (append_assoc (units (n ∷ [])) (7 ∷ []) ts) (execute-units (n ∷ []) (7 ∷ ts) st)
  execute-program (arr xs) ts st =
      rw (append_assoc (items_program xs) (12 ∷ []) ts) (execute-items xs (12 ∷ ts) st)
  execute-program (obj fs) ts st =
      rw (append_assoc (fields_program fs) (12 ∷ []) ts) (execute-fields fs (12 ∷ ts) st)

  execute-items :
      (xs : Items) (ts : List ℕ) (st : List Value)
      → execute (items_program xs ++ ts) st ≡ execute ts (items xs ∷ st)
  execute-items nil ts st = refl
  execute-items (cons x xs) ts st =
      rw
        (
          append_assoc (program x) (items_program xs ++ 9 ∷ []) ts,
          append_assoc (items_program xs) (9 ∷ []) ts,
        )
        (execute-program x (items_program xs ++ 9 ∷ ts) st
          ∙ execute-items xs (9 ∷ ts) (json x ∷ st))

  execute-fields :
      (fs : Fields) (ts : List ℕ) (st : List Value)
      → execute (fields_program fs ++ ts) st ≡ execute ts (fields fs ∷ st)
  execute-fields end ts st = refl
  execute-fields (field k v fs) ts st =
      rw
        (
          append_assoc (units k) (program v ++ (fields_program fs ++ 11 ∷ [])) ts,
          append_assoc (program v) (fields_program fs ++ 11 ∷ []) ts,
          append_assoc (fields_program fs) (11 ∷ []) ts,
        )
        (execute-units k (program v ++ (fields_program fs ++ 11 ∷ ts)) st
          ∙ execute-program v (fields_program fs ++ 11 ∷ ts) (text k ∷ st)
          ∙ execute-fields fs (11 ∷ ts) (json v ∷ text k ∷ st))

abbrev json_of : List Value → Option Json
json_of (json v ∷ []) = some v
json_of st = none

unfoldable pub drop_last : Str → Str
drop_last [] = []
drop_last (c ∷ []) = []
drop_last (c ∷ d ∷ s) = c ∷ drop_last (d ∷ s)

drop_last-snoc : (c : ℕ) (s : Str) → drop_last (s ++ c ∷ []) ≡ s
unfolding drop_last
drop_last-snoc c [] = refl
drop_last-snoc c (d ∷ []) = refl
drop_last-snoc c (d ∷ e ∷ s) = ap (◌∷◌ d) (drop_last-snoc c (e ∷ s))

abbrev unwrap : Str → Option Bytes
unwrap [] = none
unwrap (c ∷ s) = if c == 65 then some (drop_last s) else none

abbrev wrap : Bytes → Str
wrap b = 65 ∷ (b ++ 65 ∷ [])

abbrev one_unit : Str → Option ℕ
one_unit (t ∷ []) = some t
one_unit s = none

abbrev pub toy : Platform
toy = record {
  to_base64 = wrap;
  from_base64 = unwrap;
  to_base64url = wrap;
  from_base64url = unwrap;
  sign_keypair = λ seed. (seed, seed);
  sign = λ m secret. secret ++ m;
  verify = λ sig m public. some (sig == public ++ m);
  box_public = λ private. private;
  seal = λ entropy m public. some (public ++ m);
  seal_open = λ blob public private.
      if starts_with blob public then some (drop (length public) blob) else none;
  generichash = λ b. b;
  parse_json = λ b. json_of (execute b []);
  print_json = program;
  parse_date = one_unit;
  iso_date = λ t. t ∷ [];
}

wrap-unwrap : (b : Bytes) → unwrap (wrap b) ≡ some b
wrap-unwrap b = ap some (drop_last-snoc 65 b)

trim-wrap : (b : Bytes) → trim (wrap b) ≡ wrap b
unfolding trim trim_start is_space
trim-wrap b =
    let e : trim_start (reverse (wrap b)) ≡ reverse (wrap b) =
      rw (reverse-append (65 ∷ b) (65 ∷ [])) refl in
    ap reverse e ∙ reverse-reverse (wrap b)

pub toy-IsLawful : IsLawful toy
unfolding execute
toy-IsLawful = record {
  base64 = wrap-unwrap;
  base64_trim = trim-wrap;
  base64_text = λ b c h. some-injective b c (sym (wrap-unwrap b) ∙ ap unwrap h ∙ wrap-unwrap c);
  signature = λ seed m. ap some ((str_beq_iff (seed ++ m) (seed ++ m)).1 refl);
  sealed = λ e m private.
      (private ++ m, refl, rw (starts_with-append private m, drop-append_left private m) refl);
  json = λ v.
      ap json_of (ap (λ x. execute x []) (sym (append-nil (program v))) ∙ execute-program v [] []);
  date = λ t. refl;
}

pub unwrap-trim : (b : Bytes) → unwrap (trim (wrap b)) ≡ some b
unwrap-trim b = ap unwrap (trim-wrap b) ∙ wrap-unwrap b

abbrev or_else : Option Json → Option Json → Option Json
or_else none w = w
or_else (some v) w = some v

-- The toy platform, whose JSON.parse also reads the text `t` as `v`.
abbrev pub reading : (t : Str) → Json → Platform
reading t v = record toy {
  parse_json = λ b. or_else (toy.parse_json b) (if b == t then some v else none);
}

pub reading-IsLawful : (t : Str) (v : Json) → IsLawful (reading t v)
reading-IsLawful t v = record {
  base64 = toy-IsLawful.base64;
  base64_trim = toy-IsLawful.base64_trim;
  base64_text = toy-IsLawful.base64_text;
  signature = toy-IsLawful.signature;
  sealed = toy-IsLawful.sealed;
  json = λ w.
      ap (λ o. or_else o (if toy.print_json w == t then some v else none)) (toy-IsLawful.json w);
  date = λ d. refl;
}

-- One text that is read is all that `IsRead` speaks of.
pub IsRead-one :
    (p : Platform) (payload parsed : Json) (secret signed inner : Bytes)
    → canonicalize payload ≡ some signed
    → canonicalize (sealed_contents payload (p.to_base64 (p.sign signed secret))) ≡ some inner
    → p.parse_json inner ≡ some (sealed_contents parsed (p.to_base64 (p.sign signed secret)))
    → IsRead p payload parsed secret
IsRead-one p payload parsed secret signed inner a b c signed' inner' a' b' =
    let same : signed ≡ signed' = some-injective signed signed' (sym a ∙ a') in
    let e =
      subst
        (λ x. canonicalize (sealed_contents payload (p.to_base64 (p.sign x secret))) ≡ some inner)
        same b in
    let same_inner : inner ≡ inner' = some-injective inner inner' (sym e ∙ b') in
    subst
      (λ y. p.parse_json y ≡ some (sealed_contents parsed (p.to_base64 (p.sign signed' secret))))
      same_inner
      (subst
        (λ x. p.parse_json inner ≡ some (sealed_contents parsed (p.to_base64 (p.sign x secret))))
        same c)
