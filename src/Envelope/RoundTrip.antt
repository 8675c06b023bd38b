-- ===== src/Envelope/RoundTrip.antt =====
-- The round trip of sealSign and openVerify (core/envelope.ts).
use vpn_pi.Common.{ℕ, ◌≡◌, refl, Option, some, Str, lit}
use vpn_pi.Errors.Result.{ok}
use vpn_pi.Json.{Json, property, as_text}
use vpn_pi.Canonical.{canonicalize}
use vpn_pi.Platform.{Bytes, Platform, IsLawful}
use vpn_pi.Envelope.{sealed_contents, seal_sign, open_verify}

module _ (p : Platform) where
  -- JSON.parse reads the sealed text of a payload: the contents, where `parsed` is
  -- the payload with its keys sorted.
  abbrev pub IsRead : Json → Json → (secret : Bytes) → Type 0
  IsRead payload parsed secret =
      (signed inner : Str)
      → canonicalize payload ≡ some signed
      → canonicalize (sealed_contents payload (p.to_base64 (p.sign signed secret))) ≡ some inner
      → p.parse_json inner ≡ some (sealed_contents parsed (p.to_base64 (p.sign signed secret)))

  -- What is signed with the key of `seed` and sealed to the key of `private` opens to what
  -- JSON.parse makes of the payload, `parsed`, if that has the same canonical text and names a node
  -- whose key is the signer's.
  pub open_verify-seal_sign :
      IsLawful p
      → (entropy : ℕ) (seed private : Bytes) (payload parsed : Json) (text inner node : Str)
        (verify_key_for : Str → Option Bytes)
      → canonicalize payload ≡ some text
      → canonicalize parsed ≡ some text
      → canonicalize (sealed_contents payload (p.to_base64 (p.sign text (p.sign_keypair seed).1)))
        ≡ some inner
      → p.parse_json inner
        ≡ some (sealed_contents parsed (p.to_base64 (p.sign text (p.sign_keypair seed).1)))
      → as_text (property (lit "node") parsed) ≡ some node
      → verify_key_for node ≡ some (p.sign_keypair seed).0
      → (blob : Bytes) × (seal_sign p entropy payload (p.sign_keypair seed).1 (p.box_public private)
          ≡ some blob)
        × (open_verify p blob (p.box_public private) private verify_key_for ≡ ok parsed)
  unfolding seal_sign open_verify property as_text vpn_pi.Common.str_beq
  open_verify-seal_sign law entropy seed private payload parsed text inner node keys signed same
        contents read named key =
      let (blob, sealed, opened) = law.sealed entropy inner private in
      (
        blob,
        rw (signed, contents) sealed,
        rw
            (
              opened,
              read,
              law.base64 (p.sign text (p.sign_keypair seed).1),
              named,
              key,
              same,
              law.signature seed text,
            )
            refl,
      )
