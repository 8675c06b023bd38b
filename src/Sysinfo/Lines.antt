-- ===== src/Sysinfo/Lines.antt =====
-- The lines and fields of a command's output, as core/sysinfo.ts splits them.
use vpn_pi.Common.{
  ℕ, Bool, true, false, not, Option, none, some, List, [], ◌∷◌, ◌++◌, Str, lit, str_eq, nat_eq,
  ◌==◌, drop, trim, filterb, if◌then◌else◌,
}
use vpn_pi.Json.{Json, null, bool, num, str, property, number_text}
use vpn_pi.Canary.{text_or_empty}

-- `s.split(c)`; `field` is the one being read.
unfoldable pub split_from : (c : ℕ) → (field : Str) → Str → List Str
split_from c field [] = field ∷ []
split_from c field (d ∷ s) =
    let rest = split_from c (if d == c then [] else field ++ d ∷ []) s in
    if d == c then field ∷ rest else rest

abbrev pub split : (c : ℕ) → Str → List Str
split c s = split_from c [] s

abbrev is_blank : Str → Bool
is_blank line = trim line == []

abbrev pub filled_lines : Str → List Str
filled_lines out = filterb (λ line. not (is_blank line)) (split 0x0a out)

-- `f[k] ?? d`.
unfoldable pub field_at : ℕ → (d : Str) → List Str → Str
field_at k d fs = elim (drop k fs) [ [] ↦ d | f ∷ _ ↦ f ]

-- Whether a value of a parsed text is truthy.
unfoldable pub is_truthy : Option Json → Bool
is_truthy none = false
is_truthy (some null) = false
is_truthy (some (bool b)) = b
is_truthy (some (num n)) = not (number_text n == lit "0")
is_truthy (some (str s)) = not (s == [])
is_truthy (some v) = true

module _ (parse_text : Str → Option Json) where
  -- The MESSAGE of a journal line, `none` where reading it throws.
  unfoldable pub message_of_line : Str → Option Str
  message_of_line line = elim (parse_text line) [
    | none ↦ none
    | some null ↦ none
    | some v ↦ some (text_or_empty (property (lit "MESSAGE") v))
  ]
