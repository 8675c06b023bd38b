-- ===== src/Share/RemoteNames.antt =====
-- The names of downloads: what main.ts writes in content-disposition and core/share.ts reads.
use vpn_pi.Common.{
  ℕ, ◌≡◌, ◌≢◌, refl, ap, ◌∙◌, true, false, not, ◌&&◌, ◌||◌, some, List, [], ◌∷◌, ◌++◌, map, Str,
  lit, nat_eq, nat_beq_iff, str_eq, ◌==◌, leb, starts_with, All, if◌then◌else◌, arith, Bool-cases,
  inl, inr,
}
use vpn_pi.Share.Remote.{ascii_unit, ascii_name, header_of, until_quote, filename_from_disposition}

ascii_unit-unquoted : (c : ℕ) → (ascii_unit c == 0x22) ≡ false
ascii_unit-unquoted c = ground (arith, nat_beq_iff c 0x22)

until_quote-ascii_name :
    (name rest : Str) → until_quote (ascii_name name ++ 0x22 ∷ rest) ≡ ascii_name name
unfolding until_quote ascii_name
until_quote-ascii_name [] rest = refl
until_quote-ascii_name (c ∷ name) rest =
    rw (ascii_unit-unquoted c, until_quote-ascii_name name rest) refl

-- A unit that the header can carry as it is.
abbrev pub IsCarried : ℕ → Type 0
IsCarried c = (leb 0x20 c && leb c 0x7e && not (c == 0x5c || c == 0x22)) ≡ true

pub ascii_name-carried : (name : Str) → All IsCarried name → ascii_name name ≡ name
unfolding ascii_name
ascii_name-carried [] h = refl
ascii_name-carried (c ∷ name) (p, h) = rw (p, ascii_name-carried name h) refl

-- A name that is not empty is read back from the header of its download with every unit outside of
-- printable ASCII, every backslash and every quote replaced by "_", whatever the escaped name that
-- follows it; a name without such units is read back unchanged.
pub filename_from_disposition-header_of :
    (name star : Str)
    → name ≢ []
    → (filename_from_disposition (some (header_of name star)) ≡ ascii_name name)
      × (All IsCarried name → filename_from_disposition (some (header_of name star)) ≡ name)
unfolding filename_from_disposition ascii_name until_quote starts_with vpn_pi.Common.str_beq
filename_from_disposition-header_of [] star h = absurd (h refl)
filename_from_disposition-header_of (c ∷ name) star h =
    let rest = lit "; filename*=UTF-8''" ++ star in
    let read = until_quote-ascii_name name rest in
    let header : filename_from_disposition (some (header_of (c ∷ name) star))
        ≡ ascii_name (c ∷ name) =
      rw (ascii_unit-unquoted c, read) refl in
    (header, λ carried. header ∙ ascii_name-carried (c ∷ name) carried)
