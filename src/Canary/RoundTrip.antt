-- ===== src/Canary/RoundTrip.antt =====
-- The round trip of makeCanary and verifyCanary (core/canary.ts).
use vpn_pi.Common.{
  ℕ, ◌*◌, ◌≤◌, ◌≡◌, refl, ap, sym, ◌∙◌, true, Option, some, Str, lit, str_eq, str_beq_iff, ◌==◌,
  leb, arith,
}
use vpn_pi.Errors.Result.{ok}
use vpn_pi.Json.{Json, obj, str, field, end}
use vpn_pi.Canonical.{canonicalize}
use vpn_pi.Platform.{Bytes, Platform, IsLawful}
use vpn_pi.Codec.{to_b64, from_b64-to_b64}
use vpn_pi.Identity.{Identity, IsKeyed}
use vpn_pi.Envelope.RoundTrip.{IsRead, open_verify-seal_sign}
use vpn_pi.Canary.{
  Canary, canary_payload, make_canary, check_payload, verify_canary, first_token, distance,
}

module _ (p : Platform) where
  -- The payload as JSON.parse reads its canonical text, in which the keys are sorted.
  abbrev pub sorted_payload : Identity → (keyword text nonce : Str) → (now : ℕ) → Json
  sorted_payload admin keyword text nonce now = obj (
      field (lit "issued") (str (p.iso_date now)) (
        field (lit "keyword") (str keyword) (
          field (lit "node") (str (to_b64 p admin.ed_public))
            (field (lit "nonce") (str nonce) (field (lit "text") (str text) end)))))

  -- A canary that the admin app makes for the gate node opens there: over libsodium, JSON and
  -- dates that behave as documented, if the node knows the admin's key, the text begins with the
  -- keyword, and the canary's time is at most the freshness window away from the node's, either
  -- way. The node reads the admin, the keyword, the text, the nonce and the time that were sealed.
  pub verify_canary-make_canary :
      IsLawful p
      → (admin vega : Identity) (keyword text : Str) (random : Bytes)
        (entropy issued freshness_seconds now : ℕ) (admin_verify : Str → Option Bytes)
      → IsKeyed p admin
      → IsKeyed p vega
      → IsRead p
          (canary_payload p admin keyword text (to_b64 p random) issued)
          (sorted_payload admin keyword text (to_b64 p random) issued)
          admin.ed_secret
      → admin_verify (to_b64 p admin.ed_public) ≡ some admin.ed_public
      → first_token text ≡ keyword
      → distance now issued ≤ freshness_seconds * 1000
      → (blob : Str) × (make_canary p admin keyword text
            (to_b64 p vega.x_public)
            random
            entropy
            issued
          ≡ some blob)
        × (verify_canary p vega blob admin_verify keyword freshness_seconds now
            ≡ ok (record {
              admin = to_b64 p admin.ed_public;
              keyword = keyword;
              text = text;
              nonce = to_b64 p random;
              issued = p.iso_date issued;
            }))
  unfolding make_canary verify_canary check_payload canary_payload canonicalize vpn_pi.Json.as_text
      vpn_pi.Json.property vpn_pi.Common.str_beq vpn_pi.Canary.text_or_empty vpn_pi.Json.text_of
      vpn_pi.Json.text_or_undefined
  verify_canary-make_canary law admin vega keyword text random entropy issued freshness now keys k v
        read key first fresh =
      let node = to_b64 p admin.ed_public in
      let payload = canary_payload p admin keyword text (to_b64 p random) issued in
      let parsed = sorted_payload admin keyword text (to_b64 p random) issued in
      let named : keys node ≡ some (p.sign_keypair admin.seed).0 = key ∙ ap some k.public in
      let (blob, made, opened) =
        open_verify-seal_sign p law entropy admin.seed vega.x_private payload parsed _ _ node keys
          refl refl refl (rw (sym k.secret) (read _ _ refl refl)) refl named in
      let recipient = from_b64-to_b64 p law vega.x_public in
      let given = from_b64-to_b64 p law blob in
      let known : (keyword == keyword) ≡ true = (str_beq_iff keyword keyword).1 refl in
      let recent : leb (distance now issued) (freshness * 1000) ≡ true = ground (arith, fresh) in
      (
        to_b64 p blob,
        rw (recipient, k.secret, v.box, made) refl,
        rw (given, v.box, opened, first, known, law.date issued, recent) refl,
      )
