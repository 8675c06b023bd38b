-- ===== src/Friends/Wire.antt =====
-- core/friends.ts, lines 29 to 206: the tokens, accepts and revoke notices, and their signatures.
-- Fields of an object from the network are texts here, as their TypeScript types say.
use vpn_pi.Common.{
  ℕ, ◌+◌, ◌-◌, ◌*◌, Bool, false, not, ◌&&◌, Option, none, some, [], ◌∷◌, Str, lit, str_eq, nat_eq,
  ◌==◌, ltb, leb, drop, starts_with, if◌then◌else◌,
}
use vpn_pi.Errors.{
  Thrown, friend_error, other_error, bad_version, bad_signature, expired, cannot_open, malformed,
}
use vpn_pi.Errors.Result.{Result, ok, err, ◌>>=◌, ◌>>◌, or_throw, ensure}
use vpn_pi.Json.{Json, integer, null, num, obj, str, field, end, property, as_text}
use vpn_pi.Canonical.{canonicalize}
use vpn_pi.Platform.{Bytes, Platform, max_date_ms}
use vpn_pi.Codec.{to_b64, from_b64}
use vpn_pi.Identity.{Identity}

pub record PeerPub : Type 0 where
  pub ed25519 : Str
  pub x25519 : Str
  pub label : Str
  pub wg0 : Str

-- `from` of the source is `sender` here.
pub record FriendToken : Type 0 where
  pub v : ℕ
  pub sender : PeerPub
  pub nonce : Str
  pub issued : Str
  pub expires : Str
  pub sig : Str

pub record FriendAccept : Type 0 where
  pub v : ℕ
  pub sender : PeerPub
  pub ref : Str
  pub issued : Str
  pub sig : Str

pub record FriendRevoke : Type 0 where
  pub v : ℕ
  pub sender : Str
  pub target : Str
  pub nonce : Str
  pub at : Str
  pub sig : Str

abbrev pub version : ℕ → Json
version v = num (integer false v)

unfoldable pub peer_pub_json : PeerPub → Json
peer_pub_json q = obj (
    field (lit "ed25519") (str q.ed25519) (
      field (lit "x25519") (str q.x25519)
        (field (lit "label") (str q.label) (field (lit "wg0") (str q.wg0) end))))

unfoldable pub token_signable : FriendToken → Json
token_signable t = obj (
    field (lit "v") (version t.v) (
      field (lit "from") (peer_pub_json t.sender) (
        field (lit "nonce") (str t.nonce)
          (field (lit "issued") (str t.issued) (field (lit "expires") (str t.expires) end)))))

unfoldable pub accept_signable : FriendAccept → Json
accept_signable a = obj (
    field (lit "v") (version a.v) (
      field (lit "from") (peer_pub_json a.sender)
        (field (lit "ref") (str a.ref) (field (lit "issued") (str a.issued) end))))

unfoldable pub revoke_signable : FriendRevoke → Json
revoke_signable r = obj (
    field (lit "v") (version r.v) (
      field (lit "from") (str r.sender) (
        field (lit "target") (str r.target)
          (field (lit "nonce") (str r.nonce) (field (lit "at") (str r.at) end)))))

abbrev is_digit : ℕ → Bool
is_digit c = leb b'0' c && leb c b'9'

-- The value of one to three digits, and nothing else.
host_number : Str → Option ℕ
host_number (a ∷ []) = if is_digit a then some (a - 48) else none
host_number (a ∷ b ∷ []) =
    if is_digit a && is_digit b then some ((a - 48) * 10 + (b - 48)) else none
host_number (a ∷ b ∷ c ∷ []) =
    if is_digit a && (is_digit b && is_digit c)
    then some ((a - 48) * 100 + (b - 48) * 10 + (c - 48))
    else none
host_number _ = none

abbrev in_subnet : Str → Option ℕ → Option Str
in_subnet ip none = none
in_subnet ip (some host) = if leb 1 host && leb host 254 then some ip else none

abbrev unwrap_mapped : Str → Str
unwrap_mapped addr = if starts_with addr (lit "::ffff:") then drop 7 addr else addr

-- The regular expression is the prefix 10.42.0. and one to three digits.
unfoldable pub mesh_wg0 : Str → Option Str
unfolding host_number
mesh_wg0 addr =
    let ip = unwrap_mapped addr in
    if starts_with ip (lit "10.42.0.") then in_subnet ip (host_number (drop 8 ip)) else none

-- A field that must be a text.
abbrev text_field : Str → Json → Result Thrown Str
text_field k v = or_throw (as_text (property k v)) other_error

unfoldable pub peer_of_json : Json → Result Thrown PeerPub
peer_of_json v = do
  ed25519 ← text_field (lit "ed25519") v
  x25519 ← text_field (lit "x25519") v
  label ← text_field (lit "label") v
  wg0 ← text_field (lit "wg0") v
  ok (record { ed25519 = ed25519; x25519 = x25519; label = label; wg0 = wg0 })

abbrev pub is_version_one : Option Json → Bool
is_version_one (some (num (integer negative n))) = not negative && n == 1
is_version_one _ = false

module _ (p : Platform) where
  unfoldable pub sign_json : Json → (secret : Bytes) → Result Thrown Str
  sign_json value secret = do
    text ← or_throw (canonicalize value) other_error
    ok (to_b64 p (p.sign text secret))

  unfoldable pub verify_json : Json → (sig_b64 pub_b64 : Str) → Result Thrown Bool
  verify_json value sig_b64 pub_b64 = do
    sig ← or_throw (from_b64 p sig_b64) other_error
    text ← or_throw (canonicalize value) other_error
    key ← or_throw (from_b64 p pub_b64) other_error
    or_throw (p.verify sig text key) other_error

  unfoldable pub peer_pub_of : Identity → (label wg0 : Str) → PeerPub
  peer_pub_of id label wg0 = record {
    ed25519 = to_b64 p id.ed_public;
    x25519 = to_b64 p id.x_public;
    label = label;
    wg0 = wg0;
  }

  -- `Date.parse(text) < now`: an unreadable date is NaN, which is not below anything.
  unfoldable pub is_past : Str → ℕ → Bool
  is_past text now = elim (p.parse_date text) [ none ↦ false | some t ↦ ltb t now ]

  -- `toISOString` throws on a deadline that no Date can hold.
  unfoldable pub make_token :
      Identity
      → (label wg0 : Str) → (ttl_seconds : ℕ) → (random : Bytes) → (now : ℕ)
      → Result Thrown FriendToken
  make_token id label wg0 ttl_seconds random now = do
    ensure (leb (now + ttl_seconds * 1000) max_date_ms) other_error
    let body : FriendToken = record {
      v = 1;
      sender = peer_pub_of id label wg0;
      nonce = to_b64 p random;
      issued = p.iso_date now;
      expires = p.iso_date (now + ttl_seconds * 1000);
      sig = [];
    }
    sig ← sign_json (token_signable body) id.ed_secret
    ok (record body { sig = sig })

  unfoldable pub verify_token : FriendToken → (now : ℕ) → Result Thrown PeerPub
  verify_token t now = do
    ensure (t.v == 1) (friend_error bad_version)
    valid ← verify_json (token_signable t) t.sig t.sender.ed25519
    ensure valid (friend_error bad_signature)
    ensure (not (is_past t.expires now)) (friend_error expired)
    ok t.sender

  -- What `JSON.stringify(accept)` prints.
  unfoldable pub accept_json : FriendAccept → Json
  accept_json a = obj (
      field (lit "v") (version a.v) (
        field (lit "from") (peer_pub_json a.sender) (
          field (lit "ref") (str a.ref)
            (field (lit "issued") (str a.issued) (field (lit "sig") (str a.sig) end)))))

  unfoldable pub make_accept :
      Identity → (label wg0 : Str) → FriendToken → (entropy now : ℕ) → Result Thrown Str
  make_accept id label wg0 token entropy now = do
    let body : FriendAccept = record {
      v = 1;
      sender = peer_pub_of id label wg0;
      ref = token.nonce;
      issued = p.iso_date now;
      sig = [];
    }
    sig ← sign_json (accept_signable body) id.ed_secret
    key ← or_throw (from_b64 p token.sender.x25519) other_error
    sealed ←
        or_throw (p.seal entropy (p.print_json (accept_json (record body { sig = sig }))) key)
          other_error
    ok (to_b64 p sealed)

  unfoldable pub accept_of_json : Json → Result Thrown FriendAccept
  unfolding peer_of_json
  accept_of_json null = err other_error
  accept_of_json v = do
    ensure (is_version_one (property (lit "v") v)) (friend_error bad_version)
    sender ← or_throw (property (lit "from") v) other_error
    peer ← peer_of_json sender
    ref ← text_field (lit "ref") v
    issued ← text_field (lit "issued") v
    sig ← text_field (lit "sig") v
    ok (record { v = 1; sender = peer; ref = ref; issued = issued; sig = sig })

  unfoldable pub open_accept : Identity → (blob_b64 : Str) → Result Thrown FriendAccept
  unfolding peer_of_json accept_of_json
  open_accept id blob_b64 = do
    blob ← or_throw (from_b64 p blob_b64) (friend_error cannot_open)
    inner ← or_throw (p.seal_open blob id.x_public id.x_private) (friend_error cannot_open)
    value ← or_throw (p.parse_json inner) (friend_error malformed)
    accept ← accept_of_json value
    valid ← verify_json (accept_signable accept) accept.sig accept.sender.ed25519
    ensure valid (friend_error bad_signature)
    ok accept
