-- ===== src/Envelope.antt =====
-- core/envelope.ts: sign then seal, open then verify.
pub mod Authenticity
pub mod RoundTrip
use vpn_pi.Common.{ℕ, Bool, true, false, Option, none, some, Str, lit, ◌≡◌}
use vpn_pi.Errors.{Thrown, verification_error, other_error}
use vpn_pi.Errors.Result.{Result, ok, err, ◌>>=◌, ◌>>◌, or_throw, ensure}
use vpn_pi.Json.{Json, obj, str, field, end, property, as_text}
use vpn_pi.Canonical.{canonicalize}
use vpn_pi.Platform.{Bytes, Platform}

abbrev bind_option {ℓ κ} : {A : Type ℓ} {B : Type κ} → Option A → (A → Option B) → Option B
bind_option none f = none
bind_option (some a) f = f a

-- The encoded text is ASCII, so `canonicalBytes` gives the text itself.
abbrev pub sealed_contents : Json → Str → Json
sealed_contents payload sig = obj (field (lit "payload") payload (field (lit "sig") (str sig) end))

module _ (p : Platform) where
  unfoldable pub seal_sign : (entropy : ℕ) → Json → (secret recipient : Bytes) → Option Bytes
  seal_sign entropy payload secret recipient = bind_option (canonicalize payload) λ text.
      bind_option (canonicalize (sealed_contents payload (p.to_base64 (p.sign text secret))))
        λ inner. p.seal entropy inner recipient

  -- The fields that are read inside the `try`.
  read_contents : Json → Option (Json × Bytes × Str)
  read_contents contents = bind_option (property (lit "payload") contents) λ payload.
      bind_option (as_text (property (lit "sig") contents)) λ sig.
        bind_option (p.from_base64 sig) λ signature.
          bind_option (as_text (property (lit "node") payload))
            λ node. some (payload, signature, node)

  check_signature : (Str → Option Bytes) → Json × Bytes × Str → Result Thrown Json
  check_signature verify_key_for (payload, signature, node) = do
    key ← or_throw (verify_key_for node) verification_error
    text ← or_throw (canonicalize payload) other_error
    valid ← or_throw (p.verify signature text key) other_error
    ensure valid verification_error
    ok payload

  unfoldable pub open_verify :
      (blob public private : Bytes) → (Str → Option Bytes) → Result Thrown Json
  unfolding read_contents check_signature
  open_verify blob public private verify_key_for = do
    inner ← or_throw (p.seal_open blob public private) verification_error
    contents ← or_throw (p.parse_json inner) verification_error
    parts ← or_throw (read_contents contents) verification_error
    check_signature verify_key_for parts
