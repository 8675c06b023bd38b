-- ===== src/Sysinfo/Journal.antt =====
-- F2B_ACTION_RE of core/sysinfo.ts: a reader for each part of the pattern. No part can begin with
-- what the part before it may still take, so reading greedily finds every match.
use vpn_pi.Common.{
  ℕ, Bool, true, false, not, ◌&&◌, ◌||◌, Option, none, some, [], ◌∷◌, Str, lit, nat_eq, ◌==◌,
  str_eq, leb, starts_with, is_space, length, drop, if◌then◌else◌,
}

pub record BanAction : Type 0 where
  pub jail : Str
  pub restore : Bool
  pub is_ban : Bool
  pub ip : Str

abbrev pub Reader : Type 0
Reader = Str → Option Str

infixl 5 ◌then_read◌
abbrev pub ◌then_read◌ : Option Str → Reader → Option Str
none then_read r = none
some rest then_read r = r rest

is_digit : ℕ → Bool
is_digit c = leb b'0' c && leb c b'9'

-- `[\w-]`.
is_word : ℕ → Bool
unfolding is_digit
is_word c =
    is_digit c || (leb b'a' c && leb c b'z') || (leb b'A' c && leb c b'Z') || c == b'_' || c == b'-'

pub span : (ℕ → Bool) → Str → Str × Str
span p [] = ([], [])
span p (c ∷ s) = let (front, rest) = span p s in if p c then (c ∷ front, rest) else ([], c ∷ s)

unfoldable pub literal : Str → Reader
literal t s = if starts_with s t then some (drop (length t) s) else none

-- Between one and `most` digits, and no digit after them.
unfoldable pub digits : (least most : ℕ) → Reader
unfolding span is_digit
digits least most s =
    let (front, rest) = span is_digit s in
    if leb least (length front) && leb (length front) most then some rest else none

spaces : (least : ℕ) → Reader
unfolding span is_space
spaces least s =
    let (front, rest) = span is_space s in if leb least (length front) then some rest else none

one_of : ℕ → ℕ → Reader
one_of a b [] = none
one_of a b (c ∷ s) = if c == a || c == b then some s else none

-- "2026-07-01T10:20:30,123 fail2ban.actions [17]: NOTICE " before the action.
prefix : Reader
unfolding literal digits spaces one_of is_digit
prefix s =
    let second =
      digits 4 4 s
      then_read literal (lit "-")
      then_read digits 2 2
      then_read literal (lit "-")
      then_read digits 2 2
      then_read one_of b' ' b'T'
      then_read digits 2 2
      then_read literal (lit ":")
      then_read digits 2 2
      then_read literal (lit ":")
      then_read digits 2 2 in
    second
    then_read (λ t. elim (one_of b'.' b',' t) [ none ↦ some t | some u ↦ digits 1 (length u) u ])
    then_read spaces 1
    then_read literal (lit "fail2ban.actions")
    then_read spaces 0
    then_read literal (lit "[")
    then_read (λ t. digits 1 (length t) t)
    then_read literal (lit "]:")
    then_read spaces 1
    then_read literal (lit "NOTICE")
    then_read spaces 1

-- The prefix is optional, and only a message that begins with a digit can have it.
after_prefix : Reader
unfolding prefix is_digit
after_prefix [] = some []
after_prefix (c ∷ s) = if is_digit c then prefix (c ∷ s) else some (c ∷ s)

-- The four numbers of an address and the white space at the end.
ends_with_ip : Reader
unfolding digits literal spaces
ends_with_ip s =
    digits 1 3 s
    then_read literal (lit ".")
    then_read digits 1 3
    then_read literal (lit ".")
    then_read digits 1 3
    then_read literal (lit ".")
    then_read digits 1 3
    then_read spaces 0

not_space : ℕ → Bool
unfolding is_space
not_space c = not (is_space c)

-- "Ban" or "Unban", white space, and the address.
ban_of : (jail : Str) → (restore is_ban : Bool) → Option Str → Option BanAction
unfolding ends_with_ip span not_space
ban_of jail restore is_ban none = none
ban_of jail restore is_ban (some s) = elim (ends_with_ip s) [
  | some [] ↦
      some (record { jail = jail; restore = restore; is_ban = is_ban; ip = (span not_space s).0 })
  | _ ↦ none
]

either_ban : (jail : Str) → (restore : Bool) → Str → Option BanAction
unfolding ban_of literal spaces
either_ban jail restore s = elim (literal (lit "Ban") s) [
  | some t ↦ ban_of jail restore true (spaces 1 t)
  | none ↦ ban_of jail restore false (literal (lit "Unban") s then_read spaces 1)
]

maybe_restore : (jail : Str) → Option Str → Option BanAction
unfolding either_ban literal spaces
maybe_restore jail none = none
maybe_restore jail (some s) = elim (literal (lit "Restore") s) [
  | some t ↦ elim (spaces 1 t) [ none ↦ none | some u ↦ either_ban jail true u ]
  | none ↦ either_ban jail false s
]

bracketed : Option Str → Option BanAction
unfolding span is_word maybe_restore literal spaces
bracketed none = none
bracketed (some s) =
    let (jail, rest) = span is_word s in
    if jail == [] then none else maybe_restore jail (literal (lit "]") rest then_read spaces 1)

-- `F2B_ACTION_RE.exec(message)`.
unfoldable pub ban_action : Str → Option BanAction
unfolding after_prefix literal bracketed
ban_action message = bracketed (after_prefix message then_read literal (lit "["))
