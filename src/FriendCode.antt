-- ===== src/FriendCode.antt =====
-- core/friendcode.ts: invites, which pack a friend token into one text. `utf8_encode` and
-- `utf8_decode` are TextEncoder and TextDecoder; a call that throws is an error.
pub mod Layout
pub mod RoundTrip
use vpn_pi.Common.{
  ℕ, zero, suc, ◌+◌, ◌*◌, ◌/◌, ◌%◌, ◌^◌, not, ◌||◌, [], ◌∷◌, ◌++◌, Str, lit, nat_eq, ◌==◌, length,
  take, drop, trim, starts_with, ltb, leb, if◌then◌else◌,
}
use vpn_pi.Errors.{Thrown, other_error}
use vpn_pi.Errors.Result.{Result, ok, err, ◌>>=◌, ◌>>◌, or_throw, ensure}
use vpn_pi.Platform.{Bytes, Platform, max_date_ms}
use vpn_pi.Friends.Wire.{FriendToken}

abbrev pub invite_prefix : Str
invite_prefix = lit "island-invite1"

abbrev pub invite_version : ℕ
invite_version = 1

unfoldable pub zeros : ℕ → Bytes
zeros zero = []
zeros (suc n) = 0 ∷ zeros n

-- `buf.set(src, o)`: a source that does not fit throws.
unfoldable pub set_at : (o : ℕ) → (src buf : Bytes) → Result Thrown Bytes
set_at o src buf =
    if leb (o + length src) (length buf)
    then ok (take o buf ++ (src ++ drop (o + length src) buf))
    else err other_error

-- The last `n` bytes of a number, the highest first: `setBigUint64` for eight.
unfoldable pub big_endian : (n value : ℕ) → Bytes
big_endian zero value = []
big_endian (suc n) value = (value / 256 ^ n % 256) ∷ big_endian n value

unfoldable pub of_big_endian : (acc : ℕ) → Bytes → ℕ
of_big_endian acc [] = acc
of_big_endian acc (b ∷ bytes) = of_big_endian (acc * 256 + b) bytes

-- `getBigUint64`, which throws beyond the end.
unfoldable pub get_big_uint64 : Bytes → Result Thrown ℕ
unfolding of_big_endian
get_big_uint64 bytes =
    if ltb (length bytes) 8 then err other_error else ok (of_big_endian 0 (take 8 bytes))

-- A length byte and as many bytes, of which those beyond the end are missing.
unfoldable pub take_text : Bytes → Bytes × Bytes
take_text [] = ([], [])
take_text (n ∷ rest) = (take n rest, drop n rest)

module _ (p : Platform) (utf8_encode : Str → Bytes) (utf8_decode : Bytes → Str) where
  unfoldable pub encode_invite : FriendToken → Result Thrown Str
  unfolding set_at big_endian zeros
  encode_invite t = do
    ed ← or_throw (p.from_base64 t.sender.ed25519) other_error
    x ← or_throw (p.from_base64 t.sender.x25519) other_error
    nonce ← or_throw (p.from_base64 t.nonce) other_error
    sig ← or_throw (p.from_base64 t.sig) other_error
    let label = utf8_encode t.sender.label
    let wg0 = utf8_encode t.sender.wg0
    ensure (not (ltb 255 (length label) || ltb 255 (length wg0))) other_error
    buf0 ← set_at 0 (invite_version ∷ []) (zeros (163 + length label + length wg0))
    buf1 ← set_at 1 ed buf0
    buf2 ← set_at 33 x buf1
    buf3 ← set_at 65 nonce buf2
    issued ← or_throw (p.parse_date t.issued) other_error
    buf4 ← set_at 81 (big_endian 8 issued) buf3
    expires ← or_throw (p.parse_date t.expires) other_error
    buf5 ← set_at 89 (big_endian 8 expires) buf4
    buf6 ← set_at 97 sig buf5
    buf7 ← set_at 161 (length label ∷ []) buf6
    buf8 ← set_at 162 label buf7
    buf9 ← set_at (162 + length label) (length wg0 ∷ []) buf8
    buf ← set_at (163 + length label) wg0 buf9
    ok (invite_prefix ++ p.to_base64url buf)

  -- What follows the version byte.
  unfoldable pub token_of_bytes : Bytes → Result Thrown FriendToken
  unfolding get_big_uint64 take_text
  token_of_bytes bytes = do
    issued ← get_big_uint64 (drop 80 bytes)
    expires ← get_big_uint64 (drop 88 bytes)
    let (label, rest) = take_text (drop 160 bytes)
    let (wg0, unread) = take_text rest
    ensure (leb issued max_date_ms) other_error
    ensure (leb expires max_date_ms) other_error
    ok (record {
      v = 1;
      sender = record {
        ed25519 = p.to_base64 (take 32 bytes);
        x25519 = p.to_base64 (take 32 (drop 32 bytes));
        label = utf8_decode label;
        wg0 = utf8_decode wg0;
      };
      nonce = p.to_base64 (take 16 (drop 64 bytes));
      issued = p.iso_date issued;
      expires = p.iso_date expires;
      sig = p.to_base64 (take 64 (drop 96 bytes));
    })

  of_version : Bytes → Result Thrown FriendToken
  of_version [] = err other_error
  of_version (version ∷ bytes) = do
    ensure (version == invite_version) other_error
    token_of_bytes bytes

  unfoldable pub decode_invite : Str → Result Thrown FriendToken
  unfolding of_version
  decode_invite code = do
    ensure (starts_with code invite_prefix) other_error
    buf ← or_throw (p.from_base64url (trim (drop (length invite_prefix) code))) other_error
    of_version buf
