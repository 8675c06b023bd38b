-- ===== src/Common/Text.antt =====
-- Texts: a string of the source is the list of its UTF-16 code units, and a literal of the model
-- has no character above U+FFFF.
use Prim.Native.Nat.{ℕ}
use Prim.Native.Char.{code}
use Prim.Native.String.{String}
use mathlib.Core.Path.{◌≡◌, refl}
use mathlib.Core.Logic.{◌↔◌}
use mathlib.Core.Bool.{Bool, true, false, ◌&&◌, ◌||◌}
use mathlib.Core.List.{List, [], ◌∷◌, ◌++◌, reverse}
use native.Mathlib.Omega.{arith}
use vpn_pi.Common.Tests.{if◌then◌else◌, Eq, ◌==◌, nat_beq, nat_eq, leb}

abbrev pub Str : Type 0
Str = List ℕ

abbrev pub lit : String → Str
lit String.[] = []
lit (String.◌∷◌ c s) = code c ∷ lit s

unfoldable pub str_beq : Str → Str → Bool
str_beq [] [] = true
str_beq [] (y ∷ ys) = false
str_beq (x ∷ xs) [] = false
str_beq (x ∷ xs) (y ∷ ys) = nat_beq x y && str_beq xs ys

eq_of_str_beq : (xs ys : Str) → str_beq xs ys ≡ true → xs ≡ ys
unfolding str_beq
eq_of_str_beq [] [] h = refl
eq_of_str_beq [] (y ∷ ys) h = cc
eq_of_str_beq (x ∷ xs) [] h = cc
eq_of_str_beq (x ∷ xs) (y ∷ ys) h = ground (arith, eq_of_str_beq xs ys)

str_beq_refl : (xs : Str) → str_beq xs xs ≡ true
unfolding str_beq
str_beq_refl [] = refl
str_beq_refl (x ∷ xs) = ground (arith, str_beq_refl xs)

pub str_beq_iff : (xs ys : Str) → (str_beq xs ys ≡ true) ↔ (xs ≡ ys)
str_beq_iff xs ys = (eq_of_str_beq xs ys, λ h. rw h (str_beq_refl ys))

instance abbrev pub str_eq : Eq Str
str_eq = record { beq = str_beq; beq_iff = str_beq_iff }

-- `s.startsWith(p)`.
unfoldable pub starts_with : Str → Str → Bool
starts_with s [] = true
starts_with [] (y ∷ ys) = false
starts_with (x ∷ xs) (y ∷ ys) = nat_beq x y && starts_with xs ys

pub starts_with-append : (p s : Str) → starts_with (p ++ s) p ≡ true
unfolding starts_with
starts_with-append [] s = refl
starts_with-append (x ∷ p) s = ground (arith, starts_with-append p s)

-- The white space of `trim` and of `\s` (ECMAScript WhiteSpace and LineTerminator).
unfoldable pub is_space : ℕ → Bool
is_space c =
    (leb 9 c && leb c 13)
    || (c == 32 || c == 0xa0 || c == 0x1680 || (leb 0x2000 c && leb c 0x200a) || c == 0x2028)
    || (c == 0x2029 || c == 0x202f || c == 0x205f || c == 0x3000 || c == 0xfeff)

unfoldable pub trim_start : Str → Str
trim_start [] = []
trim_start (c ∷ s) = let rest = trim_start s in if is_space c then rest else c ∷ s

-- `s.trim()`.
unfoldable pub trim : Str → Str
unfolding trim_start is_space
trim s = reverse (trim_start (reverse (trim_start s)))
