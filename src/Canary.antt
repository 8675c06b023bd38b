-- ===== src/Canary.antt =====
-- core/canary.ts: the signed and sealed request that can open the gate.
pub mod Replay
pub mod RoundTrip
use vpn_pi.Common.{
  ℕ, ◌+◌, ◌-◌, ◌*◌, Bool, true, false, ◌&&◌, Option, none, some, List, [], ◌∷◌, Str, lit, str_eq,
  ◌==◌, ltb, leb, trim, is_space, if◌then◌else◌,
}
use vpn_pi.Errors.{Thrown, canary_error, other_error}
use vpn_pi.Errors.Result.{Result, ok, err, ◌>>=◌, ◌>>◌, or_throw, ensure}
use vpn_pi.Json.{Json, null, obj, str, field, end, property, text_of, text_or_undefined}
use vpn_pi.Platform.{Bytes, Platform}
use vpn_pi.Codec.{to_b64, from_b64}
use vpn_pi.Identity.{Identity}
use vpn_pi.Envelope.{seal_sign, open_verify}

pub record Canary : Type 0 where
  pub admin : Str
  pub keyword : Str
  pub text : Str
  pub nonce : Str
  pub issued : Str

-- `String(x ?? "")`.
unfoldable pub text_or_empty : Option Json → Str
text_or_empty none = []
text_or_empty (some null) = []
text_or_empty (some v) = text_of v

until_space : Str → Str
until_space [] = []
until_space (c ∷ s) = let rest = until_space s in if is_space c then [] else c ∷ rest

-- `text.trim().split(/\s+/)[0]`: a trimmed text begins with no white space.
unfoldable pub first_token : Str → Str
unfolding until_space is_space
first_token text = until_space (trim text)

-- `Math.abs(now - issued)`.
abbrev pub distance : ℕ → ℕ → ℕ
distance a b = if leb b a then a - b else b - a

module _ (p : Platform) where
  unfoldable pub canary_payload : Identity → (keyword text nonce : Str) → (now : ℕ) → Json
  canary_payload admin keyword text nonce now = obj (
      field (lit "node") (str (to_b64 p admin.ed_public)) (
        field (lit "keyword") (str keyword) (
          field (lit "text") (str text)
            (field (lit "nonce") (str nonce) (field (lit "issued") (str (p.iso_date now)) end)))))

  abbrev to_text : Option Bytes → Option Str
  to_text none = none
  to_text (some blob) = some (to_b64 p blob)

  abbrev seal_to : Option Bytes → (Bytes → Option Bytes) → Option Bytes
  seal_to none f = none
  seal_to (some key) f = f key

  -- `random` is the result of `randombytes_buf(16)`, and `entropy` that of the sealed box.
  unfoldable pub make_canary :
      Identity
      → (keyword text vega_x25519 : Str) → (random : Bytes) → (entropy now : ℕ) → Option Str
  unfolding canary_payload
  make_canary admin keyword text vega_x25519 random entropy now = to_text (
      seal_to (from_b64 p vega_x25519) (
        seal_sign p entropy (canary_payload admin keyword text (to_b64 p random) now)
          admin.ed_secret))

  -- The checks on an authentic payload.
  unfoldable pub check_payload :
      (keyword : Str) → (freshness_seconds now : ℕ) → Json → Result Thrown Canary
  check_payload keyword freshness_seconds now payload = do
    let text = text_or_empty (property (lit "text") payload)
    let kw = text_or_empty (property (lit "keyword") payload)
    ensure (kw == keyword && first_token text == keyword) canary_error
    issued ←
        or_throw (p.parse_date (text_or_undefined (property (lit "issued") payload))) canary_error
    ensure (leb (distance now issued) (freshness_seconds * 1000)) canary_error
    ok (record {
      admin = text_or_undefined (property (lit "node") payload);
      keyword = kw;
      text = text;
      nonce = text_or_undefined (property (lit "nonce") payload);
      issued = text_or_undefined (property (lit "issued") payload);
    })

  unfoldable pub verify_canary :
      Identity
      → (blob_b64 : Str) → (Str → Option Bytes)
      → (keyword : Str) → (freshness_seconds now : ℕ) → Result Thrown Canary
  verify_canary vega blob_b64 admin_verify keyword freshness_seconds now = do
    blob ← or_throw (from_b64 p blob_b64) other_error
    payload ← open_verify p blob vega.x_public vega.x_private admin_verify
    check_payload keyword freshness_seconds now payload
