-- ===== src/Auth/Laws.antt =====
-- The checks of core/auth.ts against the credentials that a caller can prove.
use vpn_pi.Common.{ℕ, ◌≡◌, ◌≢◌, ◌⊎◌, ◌↔◌, true, List, [], Str, str_eq, str_beq_iff, contains, arith}
use vpn_pi.Auth.{Credentials, loopback, token_ok, operator_ok, manage_ok}

module _ (sha256 : Str → List ℕ) where
  -- A presented token proves the expected one: both are there, and the digests agree.
  abbrev pub Proves : Str → Str → Type 0
  Proves presented expected =
      (expected ≢ []) × (presented ≢ []) × (sha256 presented ≡ sha256 expected)

  pub token_ok_iff :
      (presented expected : Str)
      → (token_ok sha256 presented expected ≡ true) ↔ Proves presented expected
  unfolding token_ok
  token_ok_iff presented expected = grind (
    arith,
    str_beq_iff expected [],
    str_beq_iff presented [],
    str_beq_iff (sha256 presented) (sha256 expected),
  )

  -- A caller manages the node exactly if the node is a mock, the caller is on the host, or it
  -- presents the operator's or the administrator's token: an unset token admits nobody.
  pub manage_ok_iff :
      (ip op_header admin_header : Str) (cfg : Credentials)
      → (manage_ok sha256 ip op_header admin_header cfg ≡ true) ↔ (
          (cfg.mock ≡ true)
          ⊎ ((contains ip loopback ≡ true)
              ⊎ (Proves op_header cfg.op_token ⊎ Proves admin_header cfg.admin_token)))
  unfolding manage_ok operator_ok
  manage_ok_iff ip op_header admin_header cfg = grind (
    arith,
    token_ok_iff op_header cfg.op_token,
    token_ok_iff admin_header cfg.admin_token,
    str_beq_iff cfg.admin_token [],
  )
