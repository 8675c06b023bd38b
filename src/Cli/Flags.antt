-- ===== src/Cli/Flags.antt =====
-- parseFlags of cli.ts: `--key value` and `--flag` arguments.
use vpn_pi.Common.{
  ℕ, zero, suc, ◌+◌, ◌<◌, ◌≡◌, ◌≢◌, refl, ap, ◌∙◌, Bool, true, false, not, ◌||◌, ◌&&◌, Option, none,
  some, List, [], ◌∷◌, ◌++◌, Str, lit, str_eq, ◌==◌, length, drop, starts_with, if◌then◌else◌,
  arith, Bool-cases, inl, inr, All, get_or,
}
use vpn_pi.Common.Maps
use vpn_pi.Common.Maps.{Map}

abbrev pub is_flag : Str → Bool
is_flag s = starts_with s (lit "--")

-- `argv[i]`.
unfoldable pub get_elem? : {A : Type 0} → List A → ℕ → Option A
get_elem? [] i = none
get_elem? (a ∷ as') zero = some a
get_elem? (a ∷ as') (suc i) = get_elem? as' i

abbrev pub is_value : Str → Bool
is_value next = not (next == []) && not (is_flag next)

-- One round for the argument `a` at index `i`: the flags, and the index of the last argument read.
-- The key `__proto__`, which a plain object would not store, is never looked up.
abbrev pub take_value : Str → Option Str → ℕ → Map Str Str → Map Str Str × ℕ
take_value a none i f = (Maps.set (drop 2 a) (lit "true") f, i)
take_value a (some next) i f =
    if is_value next
    then (Maps.set (drop 2 a) next f, i + 1)
    else (Maps.set (drop 2 a) (lit "true") f, i)

abbrev pub round : List Str → (a : Str) → (i : ℕ) → Map Str Str → Map Str Str × ℕ
round argv a i f =
    if a == [] || not (is_flag a) then (f, i) else take_value a (get_elem? argv (i + 1)) i f

-- The loop from index `i`; `none` when the fuel ends first.
unfoldable pub parse_loop : (fuel : ℕ) → List Str → (i : ℕ) → Map Str Str → Option (Map Str Str)
parse_loop zero argv i f = none
parse_loop (suc fuel) argv i f = elim (get_elem? argv i) [
  | none ↦ some f
  | some a ↦ parse_loop fuel argv ((round argv a i f).1 + 1) (round argv a i f).0
]

-- One round for each argument, and one to see the end.
unfoldable pub parse_flags : List Str → Option (Map Str Str)
unfolding parse_loop
parse_flags argv = parse_loop (suc (length argv)) argv 0 []

-- The same by the arguments themselves: `pending` is a flag that may still take a value.
unfoldable pub read_flags : (pending : Option Str) → List Str → Map Str Str → Map Str Str
read_flags none [] f = f
read_flags (some k) [] f = Maps.set k (lit "true") f
read_flags none (a ∷ argv) f = read_flags (if is_flag a then some (drop 2 a) else none) argv f
read_flags (some k) (a ∷ argv) f =
    read_flags (if is_value a then none else if is_flag a then some (drop 2 a) else none) argv
      (Maps.set k (if is_value a then a else lit "true") f)

flag_filled : (a : Str) → is_flag a ≡ true → (a == []) ≡ false
unfolding starts_with vpn_pi.Common.str_beq
flag_filled [] h = absurd (cc)
flag_filled (c ∷ a) h = refl

zero_add : (j : ℕ) → 0 + j ≡ j
zero_add j = omega arith

-- What stands from index `i` on.
abbrev FromIndex : List Str → ℕ → List Str → Type 0
FromIndex argv i rest = (j : ℕ) → get_elem? argv (i + j) ≡ get_elem? rest j

FromIndex-here :
    (argv rest : List Str) (i : ℕ) → FromIndex argv i rest → get_elem? argv i ≡ get_elem? rest 0
FromIndex-here argv rest i at =
    let same : i ≡ i + 0 = omega arith in ap (get_elem? argv) same ∙ at 0

FromIndex-next :
    (argv rest : List Str) (a : Str) (i : ℕ)
    → FromIndex argv i (a ∷ rest)
    → FromIndex argv (i + 1) rest
unfolding get_elem?
FromIndex-next argv rest a i at j =
    let same : i + 1 + j ≡ i + suc j = omega arith in ap (get_elem? argv) same ∙ at (suc j)

-- The rest of the loop after a flag `a`, from what holds of it after any round.
parse_loop-value :
    (fuel : ℕ) (argv rest : List Str) (a : Str) (i : ℕ) (f : Map Str Str)
    → ((rest : List Str) (i : ℕ) (f : Map Str Str)
        → FromIndex argv i rest
        → length rest < fuel
        → parse_loop fuel argv i f ≡ some (read_flags none rest f))
    → FromIndex argv (i + 1) rest
    → length rest < fuel
    → parse_loop fuel argv
        ((take_value a (get_elem? rest 0) i f).1 + 1)
        (take_value a (get_elem? rest 0) i f).0
      ≡ some (read_flags (some (drop 2 a)) rest f)
unfolding read_flags get_elem?
parse_loop-value fuel argv [] a i f from next h = from [] (i + 1) _ next h
parse_loop-value fuel argv (b ∷ rest) a i f from next h = elim (Bool-cases (is_value b)) [
  | inl value ↦
      rw (value, read_flags)
        (from rest (i + 1 + 1) _ (FromIndex-next argv rest b (i + 1) next) (omega (arith, h)))
  | inr other ↦ rw (other, read_flags) (from (b ∷ rest) (i + 1) _ next h)
]

parse_loop-read_flags :
    (fuel : ℕ) (argv rest : List Str) (i : ℕ) (f : Map Str Str)
    → FromIndex argv i rest
    → length rest < fuel
    → parse_loop fuel argv i f ≡ some (read_flags none rest f)
unfolding parse_loop read_flags get_elem?
parse_loop-read_flags zero argv rest i f at h = absurd (omega (arith, h))
parse_loop-read_flags (suc fuel) argv [] i f at h =
    rw (parse_loop, FromIndex-here argv [] i at) refl
parse_loop-read_flags (suc fuel) argv (a ∷ rest) i f at h =
    let next = FromIndex-next argv rest a i at in
    rw (parse_loop, FromIndex-here argv (a ∷ rest) i at)
      elim (Bool-cases (is_flag a)) [
        | inr plain ↦
            let skipped : (a == [] || not (is_flag a)) ≡ true = ground (arith, plain) in
            rw (skipped, read_flags, plain)
              (parse_loop-read_flags fuel argv rest (i + 1) f next (omega (arith, h)))
        | inl flag ↦
            let read : (a == [] || not (is_flag a)) ≡ false = rw (flag, flag_filled a flag) refl in
            rw (read, read_flags, flag, FromIndex-here argv rest (i + 1) next)
              (parse_loop-value fuel argv rest a i f (parse_loop-read_flags fuel argv) next
                (omega (arith, h)))
      ]

-- The loop over the arguments ends, after at most one round for each and one more, and gives what
-- reading them one by one gives: a flag takes the argument after it unless that is empty or a flag
-- itself, and then has the value "true"; whatever belongs to no flag is passed over.
pub parse_flags-read_flags : (argv : List Str) → parse_flags argv ≡ some (read_flags none argv [])
unfolding parse_flags
parse_flags-read_flags argv =
    parse_loop-read_flags (suc (length argv)) argv argv 0 [] (λ j. ap (get_elem? argv) (zero_add j))
      (omega arith)

-- The arguments that a user writes for some options.
unfoldable pub render : List (Str × Option Str) → List Str
render [] = []
render ((k, none) ∷ os) = (lit "--" ++ k) ∷ render os
render ((k, some v) ∷ os) = (lit "--" ++ k) ∷ v ∷ render os

unfoldable pub set_all : List (Str × Option Str) → Map Str Str → Map Str Str
set_all [] f = f
set_all ((k, v) ∷ os) f = set_all os (Maps.set k (get_or v (lit "true")) f)

abbrev pub IsPlain : Str × Option Str → Type 0
IsPlain (k, none) = Unit
IsPlain (k, some v) = is_value v ≡ true

-- What follows a flag without a value is no value.
read_flags-pending :
    (k : Str) (os : List (Str × Option Str)) (f : Map Str Str)
    → read_flags (some k) (render os) f ≡ read_flags none (render os) (Maps.set k (lit "true") f)
unfolding read_flags render starts_with vpn_pi.Common.str_beq
read_flags-pending k [] f = refl
read_flags-pending k ((j, none) ∷ os) f = refl
read_flags-pending k ((j, some v) ∷ os) f = refl

read_flags-render :
    (os : List (Str × Option Str)) (f : Map Str Str)
    → All IsPlain os
    → read_flags none (render os) f ≡ set_all os f
unfolding read_flags render set_all starts_with
read_flags-render [] f h = refl
read_flags-render ((k, some v) ∷ os) f (p, h) = rw (read_flags, p) (read_flags-render os _ h)
read_flags-render ((k, none) ∷ os) f (p, h) =
    read_flags-pending k os f ∙ read_flags-render os (Maps.set k (lit "true") f) h

-- Options written as arguments are parsed back, a later one winning over an earlier one of the
-- same key, if every value is not empty and does not begin with "--"; an option without a value
-- gets "true".
pub parse_flags-render :
    (os : List (Str × Option Str)) → All IsPlain os → parse_flags (render os) ≡ some (set_all os [])
parse_flags-render os h = parse_flags-read_flags (render os) ∙ ap some (read_flags-render os [] h)
