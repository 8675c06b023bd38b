-- ===== src/Node/Bodies.antt =====
-- main.ts: reading the body of a request, and the tokens and notices in it. As their TypeScript
-- types say, the fields of these are texts: the model refuses a token with another value in one of
-- them, which the source, where a signature covers it, lets through.
use vpn_pi.Common.{ℕ, Bool, true, false, not, Option, none, some, Str, lit, nat_eq, ltb, length}
use vpn_pi.Errors.{
  Thrown, payload_too_large, friend_error, invalid_request, bad_version, malformed, other_error,
}
use vpn_pi.Errors.Result.{Result, ok, err, ◌>>=◌, ◌>>◌, or_throw, ensure}
use vpn_pi.Json.{Json, null, num, obj, integer, property, as_text}
use vpn_pi.Friends.Wire.{FriendToken, FriendRevoke, peer_of_json, is_version_one}
use vpn_pi.Node.State.{Http}

abbrev pub max_json_body : ℕ
max_json_body = 65536

abbrev pub is_object : Json → Bool
is_object (obj fs) = true
is_object _ = false

-- `readJson`.
unfoldable pub read_json : (parse_text : Str → Option Json) → Http → Result Thrown Json
read_json parse_text req = do
  ensure (not (ltb max_json_body req.content_length)) payload_too_large
  ensure (not (ltb max_json_body (length req.text))) payload_too_large
  body ← or_throw (parse_text req.text) (friend_error invalid_request)
  ensure (is_object body) (friend_error invalid_request)
  ok body

-- The token that `receive` is given: a body without one, or a null, makes `t.v` a TypeError.
unfoldable pub token_of_json : Option Json → Result Thrown FriendToken
token_of_json none = err other_error
token_of_json (some null) = err other_error
token_of_json (some v) = do
  ensure (is_version_one (property (lit "v") v)) (friend_error bad_version)
  sender ← or_throw (property (lit "from") v) other_error
  peer ← peer_of_json sender
  nonce ← or_throw (as_text (property (lit "nonce") v)) other_error
  issued ← or_throw (as_text (property (lit "issued") v)) other_error
  expires ← or_throw (as_text (property (lit "expires") v)) other_error
  sig ← or_throw (as_text (property (lit "sig") v)) other_error
  ok (record { v = 1; sender = peer; nonce = nonce; issued = issued; expires = expires; sig = sig })

-- The shape that `receiveRevoke` asks of a notice.
unfoldable pub revoke_of_json : Option Json → Result Thrown FriendRevoke
revoke_of_json none = err (friend_error malformed)
revoke_of_json (some v) = do
  ensure (is_version_one (property (lit "v") v)) (friend_error malformed)
  sender ← or_throw (as_text (property (lit "from") v)) (friend_error malformed)
  target ← or_throw (as_text (property (lit "target") v)) (friend_error malformed)
  nonce ← or_throw (as_text (property (lit "nonce") v)) (friend_error malformed)
  at ← or_throw (as_text (property (lit "at") v)) (friend_error malformed)
  sig ← or_throw (as_text (property (lit "sig") v)) (friend_error malformed)
  ok (record { v = 1; sender = sender; target = target; nonce = nonce; at = at; sig = sig })

-- `typeof body.ttlSeconds === "number" ? body.ttlSeconds : 86_400`. A lifetime that is negative or
-- no integer is outside of the model.
unfoldable pub ttl_of : Option Json → Result Thrown ℕ
ttl_of (some (num (integer false seconds))) = ok seconds
ttl_of (some (num n)) = err other_error
ttl_of _ = ok 86400
