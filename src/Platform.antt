-- ===== src/Platform.antt =====
-- What the daemon uses and this repository does not implement: libsodium (core/sodium.ts loads it)
-- and the runtime's date and JSON texts. Byte arrays are lists of numbers; a call that throws is
-- `none`; the randomness of a sealed box is an argument.
use vpn_pi.Common.{ℕ, ◌≡◌, Bool, true, Option, some, List, Str, trim}
use vpn_pi.Json.{Json}

abbrev pub Bytes : Type 0
Bytes = List ℕ

-- The largest time of a Date; `toISOString` throws beyond it.
abbrev pub max_date_ms : ℕ
max_date_ms = 8640000000000000

pub record Platform : Type 0 where
  -- `to_base64` and `from_base64` with the variants ORIGINAL and URLSAFE_NO_PADDING
  pub to_base64 : Bytes → Str
  pub from_base64 : Str → Option Bytes
  pub to_base64url : Bytes → Str
  pub from_base64url : Str → Option Bytes
  -- `crypto_sign_seed_keypair`: the public and the secret key
  pub sign_keypair : (seed : Bytes) → Bytes × Bytes
  -- `crypto_sign_detached` and `crypto_sign_verify_detached`
  pub sign : (message secret : Bytes) → Bytes
  pub verify : (signature message public : Bytes) → Option Bool
  -- `crypto_scalarmult_base`, `crypto_box_seal` and `crypto_box_seal_open`
  pub box_public : (private : Bytes) → Bytes
  pub seal : (entropy : ℕ) → (message public : Bytes) → Option Bytes
  pub seal_open : (blob public private : Bytes) → Option Bytes
  -- `crypto_generichash(32, …)`
  pub generichash : Bytes → Bytes
  -- `JSON.parse` of the decoded text, and the encoded text of `JSON.stringify`
  pub parse_json : Bytes → Option Json
  pub print_json : Json → Bytes
  -- `Date.parse`, `none` for NaN, and `toISOString` of a time that a Date can hold: a caller that
  -- computes a time first tests it against `max_date_ms`, and the clock's readings are below it
  pub parse_date : Str → Option ℕ
  pub iso_date : ℕ → Str

-- The documented behaviour that the round trips rely on.
pub record IsLawful (p : Platform) : Type 0 where
  pub base64 : (b : Bytes) → p.from_base64 (p.to_base64 b) ≡ some b
  pub base64_trim : (b : Bytes) → trim (p.to_base64 b) ≡ p.to_base64 b
  pub base64_text : (b c : Bytes) → p.to_base64 b ≡ p.to_base64 c → b ≡ c
  pub signature :
      (seed m : Bytes)
      → p.verify (p.sign m (p.sign_keypair seed).1) m (p.sign_keypair seed).0 ≡ some true
  pub sealed :
      (e : ℕ) (m private : Bytes)
      → (c : Bytes) × (p.seal e m (p.box_public private) ≡ some c)
        × (p.seal_open c (p.box_public private) private ≡ some m)
  pub json : (v : Json) → p.parse_json (p.print_json v) ≡ some v
  pub date : (t : ℕ) → p.parse_date (p.iso_date t) ≡ some t
