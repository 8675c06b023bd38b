-- ===== src/Auth.antt =====
-- core/auth.ts: who is the operator, and who may manage the node.
pub mod Laws
use vpn_pi.Common.{
  ℕ, Bool, true, false, not, ◌&&◌, ◌||◌, List, [], ◌∷◌, Str, lit, str_eq, ◌==◌, contains,
  if◌then◌else◌,
}

unfoldable pub loopback : List Str
loopback = lit "127.0.0.1" ∷ lit "::1" ∷ lit "::ffff:127.0.0.1" ∷ []

-- The daemon's configuration as far as the checks read it; an unset token is the empty text.
pub record Credentials : Type 0 where
  pub mock : Bool
  pub op_token : Str
  pub admin_token : Str

abbrev is_empty : Str → Bool
is_empty s = s == []

-- `createHash("sha256")`, of node:crypto, and `timingSafeEqual` compares two digests.
module _ (sha256 : Str → List ℕ) where
  unfoldable pub token_ok : Str → Str → Bool
  token_ok presented expected =
      if is_empty expected || is_empty presented then false else sha256 presented == sha256 expected

  unfoldable pub operator_ok : Str → Str → Credentials → Bool
  operator_ok ip presented cfg =
      if cfg.mock
      then true
      else if contains ip loopback
      then true
      else token_ok presented cfg.op_token

  unfoldable pub manage_ok : Str → Str → Str → Credentials → Bool
  manage_ok ip op_header admin_header cfg =
      if operator_ok ip op_header cfg
      then true
      else not (is_empty cfg.admin_token) && token_ok admin_header cfg.admin_token
