-- ===== src/Share/Names.antt =====
-- The names that `sanitizeFileName` (core/share.ts) produces.
use vpn_pi.Common.{
  ℕ, zero, suc, ◌≤◌, ◌≡◌, ◌≢◌, false, not, ◌&&◌, [], ◌∷◌, ◌++◌, map, Str, lit, str_eq, ◌==◌, length,
  take, trim, trim_start, All, All-append, if◌then◌else◌, arith, str_beq_iff, length-take,
  Bool-cases, inl, inr,
}
use vpn_pi.Share.{is_slash, is_forbidden, base_from, replaced, clean_name, sanitize_file_name}
use mathlib.Core.List.{reverse, reverse-cons}

abbrev pub IsSafeUnit : ℕ → Type 0
IsSafeUnit c = (is_slash c ≡ false) × (is_forbidden c ≡ false)

abbrev IsSegmentUnit : ℕ → Type 0
IsSegmentUnit c = is_slash c ≡ false

base_from-All :
    (segment s : Str) → All IsSegmentUnit segment → All IsSegmentUnit (base_from segment s)
unfolding base_from
base_from-All segment [] h = h
base_from-All segment (c ∷ s) h = elim (Bool-cases (is_slash c)) [
  | inl slash ↦ rw slash (base_from-All [] s tt)
  | inr other ↦ rw other (
      base_from-All (segment ++ c ∷ []) s (All-append IsSegmentUnit segment (c ∷ []) h (other, tt)))
]

map-All : (s : Str) → All IsSegmentUnit s → All IsSafeUnit (map replaced s)
map-All [] h = tt
map-All (c ∷ s) (p, h) = (ground arith, map-All s h)

module _ (P : ℕ → Type 0) where
  trim_start-All : (s : Str) → All P s → All P (trim_start s)
  unfolding trim_start
  trim_start-All [] h = tt
  trim_start-All (c ∷ s) (p, h) = ground (arith, trim_start-All s h)

  reverse-All : (s : Str) → All P s → All P (reverse s)
  reverse-All [] h = tt
  reverse-All (c ∷ s) (p, h) =
      rw (reverse-cons c s) (All-append P (reverse s) (c ∷ []) (reverse-All s h) (p, tt))

  take-All : (n : ℕ) (s : Str) → All P s → All P (take n s)
  take-All zero s h = tt
  take-All (suc n) [] h = tt
  take-All (suc n) (c ∷ s) (p, h) = (p, take-All n s h)

  trim-All : (s : Str) → All P s → All P (trim s)
  unfolding trim
  trim-All s h = reverse-All _ (trim_start-All _ (reverse-All _ (trim_start-All s h)))

abbrev pub IsSafeName : Str → Type 0
IsSafeName s = (All IsSafeUnit s) × (length s ≤ 160) × (s ≢ []) × (s ≢ lit ".") × (s ≢ lit "..")

unnamed-safe : All IsSafeUnit (lit "unnamed")
unnamed-safe = ground arith

guarded-IsSafeName :
    (s : Str)
    → All IsSafeUnit s
    → length s ≤ 160
    → IsSafeName
        (if not (s == []) && not (s == lit ".") && not (s == lit "..") then s else lit "unnamed")
guarded-IsSafeName s units short =
    elim (Bool-cases (not (s == []) && not (s == lit ".") && not (s == lit ".."))) [
      | inl fine ↦ rw fine (
        units,
        short,
        (λ e. absurd (ground (arith, str_beq_iff s []))),
        (λ e. absurd (ground (arith, str_beq_iff s (lit ".")))),
        λ e. absurd (ground (arith, str_beq_iff s (lit ".."))),
      )
      | inr bad ↦
          rw bad
            (unnamed-safe, omega arith, (λ e. absurd (cc)), (λ e. absurd (cc)), λ e. absurd (cc))
    ]

-- Whatever name an upload carries, the stored name has no path separator, control character or
-- double quote, at most 160 code units, and is not empty, "." or "..".
pub sanitize_file_name-IsSafeName : (raw : Str) → IsSafeName (sanitize_file_name raw)
unfolding sanitize_file_name
sanitize_file_name-IsSafeName raw =
    let clean = clean_name raw in
    let units : All IsSafeUnit clean =
      take-All IsSafeUnit 160 _ (trim-All IsSafeUnit _ (map-All _ (base_from-All [] raw tt))) in
    let short : length clean ≤ 160 =
      omega (arith, length-take 160 (trim (map replaced (base_from [] raw)))) in
    guarded-IsSafeName clean units short
