-- ===== src/Codec.antt =====
-- core/codec.ts: base64 texts of key material.
use vpn_pi.Common.{◌≡◌, ◌∙◌, ap, Option, some, Str, trim}
use vpn_pi.Platform.{Bytes, Platform, IsLawful}

module _ (p : Platform) where
  unfoldable pub to_b64 : Bytes → Str
  to_b64 raw = p.to_base64 raw

  unfoldable pub from_b64 : Str → Option Bytes
  from_b64 text = p.from_base64 (trim text)

  pub from_b64-to_b64 : IsLawful p → (b : Bytes) → from_b64 (to_b64 b) ≡ some b
  unfolding from_b64 to_b64
  from_b64-to_b64 law b = ap p.from_base64 (law.base64_trim b) ∙ law.base64 b
