-- ===== src/FriendCode/RoundTrip.antt =====
-- The round trip of encodeInvite and decodeInvite (core/friendcode.ts).
use vpn_pi.Common.{
  ℕ, ◌+◌, ◌-◌, ◌^◌, ◌≤◌, ◌<◌, ◌≡◌, refl, ◌∙◌, ap, some, true, false, List, [], ◌∷◌, ◌++◌, Str,
  append-nil, length, length-append, drop, trim, take-append_left, drop-append_left,
  starts_with-append, ltb, leb, nat_eq, arith,
}
use vpn_pi.Errors.{Thrown}
use vpn_pi.Errors.Result.{Result, ok}
use vpn_pi.Platform.{Bytes, Platform, IsLawful, max_date_ms}
use vpn_pi.Friends.Wire.{FriendToken}
use vpn_pi.FriendCode.{
  invite_prefix, zeros, big_endian, take_text, get_big_uint64, token_of_bytes, encode_invite,
  decode_invite,
}
use vpn_pi.FriendCode.Layout.{
  of_big_endian_eight, take-exact, length-big_endian_eight, drop-exact, drop-from, joined, Adjacent,
  length-joined, write_all-joined,
}

get_big_uint64-big_endian :
    (v : ℕ) (ys : Bytes) → v < 2 ^ 64 → get_big_uint64 (big_endian 8 v ++ ys) ≡ ok v
unfolding get_big_uint64
get_big_uint64-big_endian v ys h =
    let size = length-big_endian_eight v in
    let room : ltb (length (big_endian 8 v ++ ys)) 8 ≡ false =
      ground (arith, length-append (big_endian 8 v) ys, size) in
    rw (room, take-exact 8 (big_endian 8 v) ys size) (ap ok (of_big_endian_eight v h))

below_word : (t : ℕ) → t ≤ max_date_ms → t < 2 ^ 64
below_word t h = omega (arith, h)

leb-max_date_ms : (t : ℕ) → t ≤ max_date_ms → leb t max_date_ms ≡ true
leb-max_date_ms t h = ground (arith, h)

-- What an invite carries, before its texts are made.
pub record Parts : Type 0 where
  pub ed25519 : Bytes
  pub x25519 : Bytes
  pub label : Str
  pub wg0 : Str
  pub nonce : Bytes
  pub issued : ℕ
  pub expires : ℕ
  pub sig : Bytes

module _ (p : Platform) (utf8_encode : Str → Bytes) (utf8_decode : Bytes → Str) where
  abbrev pub token_of : Parts → FriendToken
  token_of q = record {
    v = 1;
    sender = record {
      ed25519 = p.to_base64 q.ed25519;
      x25519 = p.to_base64 q.x25519;
      label = q.label;
      wg0 = q.wg0;
    };
    nonce = p.to_base64 q.nonce;
    issued = p.iso_date q.issued;
    expires = p.iso_date q.expires;
    sig = p.to_base64 q.sig;
  }

  -- The sizes of keys, nonces and signatures, a length byte for each text, and times of a Date.
  pub record Fits (q : Parts) : Type 0 where
    pub ed25519 : length q.ed25519 ≡ 32
    pub x25519 : length q.x25519 ≡ 32
    pub nonce : length q.nonce ≡ 16
    pub sig : length q.sig ≡ 64
    pub label : length (utf8_encode q.label) ≤ 255
    pub wg0 : length (utf8_encode q.wg0) ≤ 255
    pub issued : q.issued ≤ max_date_ms
    pub expires : q.expires ≤ max_date_ms

  fields : Parts → List (ℕ × Bytes)
  fields q =
      let label = utf8_encode q.label in
      let wg0 = utf8_encode q.wg0 in
      (0, 1 ∷ [])
      ∷ (1, q.ed25519)
      ∷ (33, q.x25519)
      ∷ (65, q.nonce)
      ∷ (81, big_endian 8 q.issued)
      ∷ (89, big_endian 8 q.expires)
      ∷ (97, q.sig)
      ∷ (161, length label ∷ [])
      ∷ (162, label)
      ∷ (162 + length label, length wg0 ∷ [])
      ∷ (163 + length label, wg0)
      ∷ []

  size_of : Parts → ℕ
  size_of q = 163 + length (utf8_encode q.label) + length (utf8_encode q.wg0)

  size-joined : (q : Parts) → Fits q → length (joined (fields q)) ≡ size_of q
  unfolding fields size_of
  size-joined q fits =
      let first = length-big_endian_eight q.issued in
      let second = length-big_endian_eight q.expires in
      length-joined (fields q)
      ∙ omega (arith, fits.ed25519, fits.x25519, fits.nonce, fits.sig, first, second)

  fields-Adjacent : (q : Parts) → Fits q → Adjacent 0 (fields q)
  unfolding fields
  fields-Adjacent q fits =
      let first = length-big_endian_eight q.issued in
      let second = length-big_endian_eight q.expires in
      rw (fits.ed25519, fits.x25519, fits.nonce, fits.sig, first, second) (ground arith)

  encode_invite-joined :
      (q : Parts)
      → IsLawful p
      → Fits q
      → encode_invite p utf8_encode utf8_decode (token_of q)
        ≡ ok (invite_prefix ++ p.to_base64url (joined (fields q)))
  unfolding encode_invite fields size_of zeros
  encode_invite-joined q lawful fits =
      let small_label : ltb 255 (length (utf8_encode q.label)) ≡ false =
        ground (arith, fits.label) in
      let small_wg0 : ltb 255 (length (utf8_encode q.wg0)) ≡ false = ground (arith, fits.wg0) in
      let size = size-joined q fits in
      let printed : Bytes → Result Thrown Str = λ b. ok (invite_prefix ++ p.to_base64url b) in
      let written =
        write_all-joined (size_of q) [] (fields q) printed (fields-Adjacent q fits)
          (omega (arith, size)) in
      let full : size_of q - length (joined (fields q)) ≡ 0 = omega (arith, size) in
      rw
        (
          lawful.base64 q.ed25519,
          lawful.base64 q.x25519,
          lawful.base64 q.nonce,
          lawful.base64 q.sig,
          small_label,
          small_wg0,
          lawful.date q.issued,
          lawful.date q.expires,
        )
        (written ∙ ap printed (rw full (append-nil (joined (fields q)))))

  token_of_bytes-joined :
      (q : Parts)
      → Fits q
      → utf8_decode (utf8_encode q.label) ≡ q.label
      → utf8_decode (utf8_encode q.wg0) ≡ q.wg0
      → token_of_bytes p utf8_encode utf8_decode (drop 1 (joined (fields q))) ≡ ok (token_of q)
  unfolding token_of_bytes fields take_text
  token_of_bytes-joined q fits same_label same_wg0 =
      let label = utf8_encode q.label in
      let wg0 = utf8_encode q.wg0 in
      let texts = length label ∷ (label ++ (length wg0 ∷ (wg0 ++ []))) in
      let signed = q.sig ++ texts in
      let from_expires = big_endian 8 q.expires ++ signed in
      let from_issued = big_endian 8 q.issued ++ from_expires in
      let from_nonce = q.nonce ++ from_issued in
      let from_x = q.x25519 ++ from_nonce in
      let whole = q.ed25519 ++ from_x in
      let first = length-big_endian_eight q.issued in
      let second = length-big_endian_eight q.expires in
      let at_x : drop 32 (q.ed25519 ++ from_x) ≡ from_x =
        drop-exact 32 q.ed25519 from_x fits.ed25519 in
      let at_nonce : drop 64 (q.ed25519 ++ from_x) ≡ from_nonce =
        drop-from 64 32 32 whole at_x refl ∙ drop-exact 32 q.x25519 from_nonce fits.x25519 in
      let at_issued : drop 80 (q.ed25519 ++ from_x) ≡ from_issued =
        drop-from 80 64 16 whole at_nonce refl ∙ drop-exact 16 q.nonce from_issued fits.nonce in
      let at_expires : drop 88 (q.ed25519 ++ from_x) ≡ from_expires =
        drop-from 88 80 8 whole at_issued refl
        ∙ drop-exact 8 (big_endian 8 q.issued) from_expires first in
      let at_sig : drop 96 (q.ed25519 ++ from_x) ≡ signed =
        drop-from 96 88 8 whole at_expires refl
        ∙ drop-exact 8 (big_endian 8 q.expires) signed second in
      let at_texts : drop 160 (q.ed25519 ++ from_x) ≡ texts =
        drop-from 160 96 64 whole at_sig refl ∙ drop-exact 64 q.sig texts fits.sig in
      let issued =
        get_big_uint64-big_endian q.issued from_expires (below_word q.issued fits.issued) in
      let expires =
        get_big_uint64-big_endian q.expires signed (below_word q.expires fits.expires) in
      let ok_issued = leb-max_date_ms q.issued fits.issued in
      let ok_expires = leb-max_date_ms q.expires fits.expires in
      let taken_ed = take-exact 32 q.ed25519 from_x fits.ed25519 in
      let taken_x = take-exact 32 q.x25519 from_nonce fits.x25519 in
      let taken_nonce = take-exact 16 q.nonce from_issued fits.nonce in
      let taken_sig = take-exact 64 q.sig texts fits.sig in
      let rest = length wg0 ∷ (wg0 ++ []) in
      rw
        (
          at_issued,
          at_expires,
          at_texts,
          at_sig,
          at_x,
          at_nonce,
          issued,
          expires,
          ok_issued,
          ok_expires,
          taken_ed,
          taken_x,
          taken_nonce,
          taken_sig,
          take-append_left label rest,
          drop-append_left label rest,
          take-append_left wg0 [],
          same_label,
          same_wg0,
        )
        refl

  -- Over libsodium, dates and UTF-8 that behave as documented: an invite of version 1 whose keys
  -- are 32 bytes, whose nonce is 16 and signature 64, whose label and address take at most 255
  -- bytes of UTF-8 each, and whose two times are times of a Date, is encoded, and decoding the
  -- code gives the same token, every field of it.
  pub decode_invite-encode_invite :
      (q : Parts)
      → IsLawful p
      → ((b : Bytes) → p.from_base64url (trim (p.to_base64url b)) ≡ some b)
      → Fits q
      → utf8_decode (utf8_encode q.label) ≡ q.label
      → utf8_decode (utf8_encode q.wg0) ≡ q.wg0
      → (code : Str) × (encode_invite p utf8_encode utf8_decode (token_of q) ≡ ok code)
        × (decode_invite p utf8_encode utf8_decode code ≡ ok (token_of q))
  unfolding decode_invite fields
  decode_invite-encode_invite q lawful base64url fits same_label same_wg0 =
      let packed = p.to_base64url (joined (fields q)) in
      let prefix = starts_with-append invite_prefix packed in
      (
        invite_prefix ++ packed,
        encode_invite-joined q lawful fits,
        rw (prefix, base64url (joined (fields q)))
            (token_of_bytes-joined q fits same_label same_wg0),
      )
