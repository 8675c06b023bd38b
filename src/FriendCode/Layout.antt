-- ===== src/FriendCode/Layout.antt =====
-- The packed layout of an invite (core/friendcode.ts): fields written one after another into a
-- buffer of zeros, and 8-byte numbers.
use native.Mathlib.Nat.{
  div-add-mod, div-add-mod', div-div-eq-div-mul, mul_comm, mul_assoc, add-mul, pow-succ',
}
use vpn_pi.Common.{
  ℕ, zero, suc, ◌+◌, ◌-◌, ◌*◌, ◌/◌, ◌%◌, ◌^◌, ◌≤◌, ◌<◌, ◌≡◌, refl, ap, sym, ◌∙◌, subst, [], ◌∷◌,
  ◌++◌, List, append_assoc, length, length-append, take, drop, take-append_left, drop-append_left,
  leb, true, arith,
}
use vpn_pi.Errors.{Thrown}
use vpn_pi.Errors.Result.{Result, ok, ◌>>=◌}
use vpn_pi.Platform.{Bytes}
use vpn_pi.FriendCode.{zeros, set_at, big_endian, of_big_endian}

length-big_endian : (n v : ℕ) → length (big_endian n v) ≡ n
unfolding big_endian
length-big_endian zero v = refl
length-big_endian (suc n) v = omega (arith, length-big_endian n v)

digit-mod : (p v : ℕ) → (v / p % 256) * p + v % p ≡ v % (256 * p)
digit-mod p v =
    let split : v / p / 256 * 256 + v / p % 256 ≡ v / p = omega arith in
    let whole : (v / p / 256 * 256 + v / p % 256) * p + v % p ≡ v = rw split (div-add-mod' v p) in
    let above : v / p / 256 ≡ v / (256 * p) =
      div-div-eq-div-mul v p 256 ∙ ap (λ x. v / x) (mul_comm p 256) in
    let parts = div-add-mod v (256 * p) in
    let digits : 256 * p * (v / p / 256) + v % (256 * p) ≡ v = rw above parts in
    omega (arith, whole, digits)

of_big_endian-big_endian :
    (n acc v : ℕ) → of_big_endian acc (big_endian n v) ≡ acc * 256 ^ n + v % 256 ^ n
unfolding big_endian of_big_endian
of_big_endian-big_endian zero acc v = omega arith
of_big_endian-big_endian (suc n) acc v =
    let step = of_big_endian-big_endian n (acc * 256 + v / 256 ^ n % 256) v in
    let digit = digit-mod (256 ^ n) v in
    let shifted : (acc * 256 + v / 256 ^ n % 256) * 256 ^ n
        ≡ acc * (256 * 256 ^ n) + v / 256 ^ n % 256 * 256 ^ n =
      add-mul (acc * 256) (v / 256 ^ n % 256) (256 ^ n) ∙ rw (mul_assoc acc 256 (256 ^ n)) refl in
    rw (pow-succ' 256 n) omega (arith, step, digit, shifted)

-- A number below 2^64 is read back from its eight bytes.
pub of_big_endian_eight : (v : ℕ) → v < 2 ^ 64 → of_big_endian 0 (big_endian 8 v) ≡ v
of_big_endian_eight v h = omega (arith, of_big_endian-big_endian 8 0 v)

pub length-big_endian_eight : (v : ℕ) → length (big_endian 8 v) ≡ 8
length-big_endian_eight v = length-big_endian 8 v

length-zeros : (n : ℕ) → length (zeros n) ≡ n
unfolding zeros
length-zeros zero = refl
length-zeros (suc n) = omega (arith, length-zeros n)

drop-zeros : (n m : ℕ) → drop n (zeros m) ≡ zeros (m - n)
unfolding zeros
drop-zeros zero m = ap zeros (omega arith)
drop-zeros (suc n) zero = let none_left : 0 ≡ 0 - suc n = omega arith in ap zeros none_left
drop-zeros (suc n) (suc m) = drop-zeros n m ∙ ap zeros (omega arith)

pub drop-past :
    {A : Type 0} (n k : ℕ) (xs ys : List A) → n ≡ length xs + k → drop n (xs ++ ys) ≡ drop k ys
drop-past n k [] ys h = ap (λ i. drop i ys) (omega (arith, h))
drop-past zero k (x ∷ xs) ys h = absurd (omega (arith, h))
drop-past (suc n) k (x ∷ xs) ys h = drop-past n k xs ys (omega (arith, h))

pub take-exact : {A : Type 0} (n : ℕ) (xs ys : List A) → length xs ≡ n → take n (xs ++ ys) ≡ xs
take-exact n xs ys h = ap (λ i. take i (xs ++ ys)) (sym h) ∙ take-append_left xs ys

pub drop-exact : {A : Type 0} (n : ℕ) (xs ys : List A) → length xs ≡ n → drop n (xs ++ ys) ≡ ys
drop-exact n xs ys h = ap (λ i. drop i (xs ++ ys)) (sym h) ∙ drop-append_left xs ys

drop-nil : {A : Type 0} (n : ℕ) → drop {A = A} n [] ≡ []
drop-nil zero = refl
drop-nil (suc n) = refl

drop-drop : {A : Type 0} (m n : ℕ) (xs : List A) → drop (m + n) xs ≡ drop n (drop m xs)
drop-drop zero n xs = let same : 0 + n ≡ n = omega arith in ap (λ i. drop i xs) same
drop-drop (suc m) n [] = drop-nil (suc m + n) ∙ sym (drop-nil n)
drop-drop (suc m) n (x ∷ xs) =
    let next : suc m + n ≡ suc (m + n) = omega arith in
    ap (λ i. drop i (x ∷ xs)) next ∙ drop-drop m n xs

-- From a place that is known, some further on.
pub drop-from :
    {A : Type 0} (n m k : ℕ) (xs : List A) {ys : List A}
    → drop m xs ≡ ys
    → n ≡ m + k
    → drop n xs ≡ drop k ys
drop-from n m k xs here h = ap (λ i. drop i xs) h ∙ drop-drop m k xs ∙ ap (drop k) here

-- A write at the end of what is written.
set_at-next :
    (o m : ℕ) (pre src : Bytes)
    → o ≡ length pre
    → length src ≤ m
    → set_at o src (pre ++ zeros m) ≡ ok (pre ++ (src ++ zeros (m - length src)))
unfolding set_at
set_at-next o m pre src h fits =
    let room : leb (length pre + length src) (length (pre ++ zeros m)) ≡ true =
      ground (arith, length-append pre (zeros m), length-zeros m) in
    rw
      (
        h,
        room,
        take-append_left pre (zeros m),
        drop-past (length pre + length src) (length src) pre (zeros m) refl,
        drop-zeros (length src) m,
      )
      refl

-- Fields with their offsets, written in order.
abbrev pub write_all :
    {A : Type 0} → List (ℕ × Bytes) → Bytes → (Bytes → Result Thrown A) → Result Thrown A
write_all [] buf last = last buf
write_all ((o, src) ∷ ws) buf last = set_at o src buf >>= λ b. write_all ws b last

abbrev pub joined : List (ℕ × Bytes) → Bytes
joined [] = []
joined ((o, src) ∷ ws) = src ++ joined ws

abbrev pub total : List (ℕ × Bytes) → ℕ
total [] = 0
total ((o, src) ∷ ws) = length src + total ws

pub length-joined : (ws : List (ℕ × Bytes)) → length (joined ws) ≡ total ws
length-joined [] = refl
length-joined ((o, src) ∷ ws) = omega (arith, length-append src (joined ws), length-joined ws)

-- Each field begins where the one before ends.
abbrev pub Adjacent : ℕ → List (ℕ × Bytes) → Type 0
Adjacent at [] = Unit
Adjacent at ((o, src) ∷ ws) = (o ≡ at) × Adjacent (at + length src) ws

pub write_all-joined :
    {A : Type 0} (m : ℕ) (pre : Bytes) (ws : List (ℕ × Bytes)) (last : Bytes → Result Thrown A)
    → Adjacent (length pre) ws
    → length (joined ws) ≤ m
    → write_all ws (pre ++ zeros m) last
      ≡ last (pre ++ (joined ws ++ zeros (m - length (joined ws))))
write_all-joined m pre [] last a fits = ap (λ n. last (pre ++ zeros n)) (omega arith)
write_all-joined m pre ((o, src) ∷ ws) last (here, a) fits =
    let size = length-append src (joined ws) in
    let left = m - length src in
    let next =
      write_all-joined left (pre ++ src) ws last
        (subst (λ n. Adjacent n ws) (sym (length-append pre src)) a) (omega (arith, size, fits)) in
    let rest : left - length (joined ws) ≡ m - length (src ++ joined ws) = omega (arith, size) in
    rw
      (
        set_at-next o m pre src here (omega (arith, size, fits)),
        sym (append_assoc pre src (zeros left)),
        next,
        rest,
        append_assoc pre src _,
        append_assoc src (joined ws) _,
      )
      refl
