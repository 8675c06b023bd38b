-- ===== src/Canary/Replay.antt =====
-- What verifyCanary (core/canary.ts) checks, as a predicate on the canary.
use vpn_pi.Common.{
  ℕ, ◌+◌, ◌*◌, ◌≤◌, ◌≡◌, Option, some, Str, lit, arith, str_eq, str_beq_iff, Option-cases, inl, inr,
}
use vpn_pi.Errors.{other_error}
use vpn_pi.Errors.Result.{ok, or_throw, >>=-eq-ok}
use vpn_pi.Json.{Json, property, text_or_undefined}
use vpn_pi.Platform.{Bytes, Platform}
use vpn_pi.Identity.{Identity}
use vpn_pi.Codec.{from_b64}
use vpn_pi.Envelope.{open_verify}
use vpn_pi.Envelope.Authenticity.{IsAuthentic, open_verify-IsAuthentic}
use vpn_pi.Canary.{Canary, first_token, check_payload, verify_canary, text_or_empty}

module _ (p : Platform) where
  -- The issue time of a canary, and its distance to the clock.
  pub record IsFresh (freshness_seconds now : ℕ) (c : Canary) : Type 0 where
    pub issued : ℕ
    pub parsed : p.parse_date c.issued ≡ some issued
    pub early : issued ≤ now + freshness_seconds * 1000
    pub late : now ≤ issued + freshness_seconds * 1000

  pub record IsAccepted (admin_verify : Str → Option Bytes) (keyword : Str)
      (freshness_seconds now : ℕ) (c : Canary) : Type 0 where
    pub payload : Json
    pub authentic : IsAuthentic p admin_verify payload
    pub admin : text_or_undefined (property (lit "node") payload) ≡ c.admin
    pub nonce : text_or_undefined (property (lit "nonce") payload) ≡ c.nonce
    pub keyword_field : c.keyword ≡ keyword
    pub first : first_token c.text ≡ keyword
    pub fresh : IsFresh freshness_seconds now c

  check_payload-IsFresh :
      (keyword : Str) (freshness_seconds now : ℕ) (payload : Json) (c : Canary)
      → check_payload p keyword freshness_seconds now payload ≡ ok c
      → (text_or_undefined (property (lit "node") payload) ≡ c.admin)
        × (text_or_undefined (property (lit "nonce") payload) ≡ c.nonce)
        × (c.keyword ≡ keyword)
        × (first_token c.text ≡ keyword)
        × IsFresh freshness_seconds now c
  unfolding check_payload
  check_payload-IsFresh keyword freshness_seconds now payload c h =
      elim (Option-cases (p.parse_date (text_or_undefined (property (lit "issued") payload)))) [
        | inl missing ↦ absurd (ground arith)
        | inr (issued, parsed) ↦
            let text = text_or_empty (property (lit "text") payload) in
            let kw = text_or_empty (property (lit "keyword") payload) in
            (
              ground arith,
              ground arith,
              ground (arith, str_beq_iff kw keyword),
              ground (arith, str_beq_iff (first_token text) keyword),
              record {
                issued = issued;
                parsed = ground arith;
                early = ground arith;
                late = ground arith;
              },
            )
      ]

  -- A canary is let through only if an allowlisted key has signed exactly its payload, the keyword
  -- is both its keyword field and the first token of its text, and its issue time is within
  -- `freshness_seconds` of the clock, on either side.
  pub verify_canary-IsAccepted :
      (vega : Identity) (blob_b64 : Str) (admin_verify : Str → Option Bytes) (keyword : Str)
      (freshness_seconds now : ℕ) (c : Canary)
      → verify_canary p vega blob_b64 admin_verify keyword freshness_seconds now ≡ ok c
      → IsAccepted admin_verify keyword freshness_seconds now c
  unfolding verify_canary
  verify_canary-IsAccepted vega blob_b64 admin_verify keyword freshness_seconds now c h =
      let (blob, decoded, h1) = >>=-eq-ok (or_throw (from_b64 p blob_b64) other_error) _ h in
      let (payload, opened, h2) =
        >>=-eq-ok (open_verify p blob vega.x_public vega.x_private admin_verify) _ h1 in
      let (admin, nonce, kw, first, fresh) =
        check_payload-IsFresh keyword freshness_seconds now payload c h2 in
      record {
        payload = payload;
        authentic =
            open_verify-IsAuthentic p admin_verify blob vega.x_public vega.x_private payload opened;
        admin = admin;
        nonce = nonce;
        keyword_field = kw;
        first = first;
        fresh = fresh;
      }
