-- ===== src/Messages.antt =====
-- core/messages.ts: sealed messages between friends, the replay guard and the logs of a node. Times
-- are milliseconds; `now` is what `Date.now()` reads.
pub mod Replay
pub mod RoundTrip
pub mod Logs
use vpn_pi.Common.{
  ℕ, ◌+◌, ◌-◌, Bool, true, false, not, ◌||◌, ◌&&◌, Option, none, some, List, [], ◌∷◌, ◌++◌, map,
  Str, lit, str_eq, ◌==◌, ltb, leb, length, drop, filterb, get_or, if◌then◌else◌,
}
use vpn_pi.Common.Maps
use vpn_pi.Common.Maps.{Map}
use vpn_pi.Errors.{Thrown, verification_error, other_error}
use vpn_pi.Errors.Result.{Result, ok, err, ◌>>=◌, ◌>>◌, or_throw, ensure}
use vpn_pi.Json.{Json, obj, str, field, end, property, as_text, text_or_undefined, has_text}
use vpn_pi.Platform.{Bytes, Platform}
use vpn_pi.Codec.{to_b64, from_b64}
use vpn_pi.Identity.{Identity}
use vpn_pi.Envelope.{seal_sign, open_verify}
use vpn_pi.Friends.Wire.{PeerPub}

-- `from` of the source is `sender` here.
pub record Message : Type 0 where
  pub id : Option Str
  pub sender : Str
  pub to : Str
  pub body : Str
  pub ts : Str

pub data Direction : Type 0 where
  incoming outgoing : Direction

pub record StoredMessage : Type 0 where
  pub message : Message
  pub dir : Direction

abbrev pub max_msg_age_ms : ℕ
max_msg_age_ms = 900000

abbrev pub max_msg_skew_ms : ℕ
max_msg_skew_ms = 300000

abbrev pub max_per_peer : ℕ
max_per_peer = 500

abbrev pub max_seen_ids : ℕ
max_seen_ids = 4096

-- `MessageBook`, which is also `MsgData`: the logs by peer, and the ids seen with their times.
pub record MessageBook : Type 0 where
  pub logs : Map Str (List StoredMessage)
  pub seen : Map Str ℕ

-- `log.splice(0, log.length - MAX_PER_PEER)` where the log is too long.
abbrev pub capped : List StoredMessage → List StoredMessage
capped log = if ltb max_per_peer (length log) then drop (length log - max_per_peer) log else log

unfoldable pub append : Str → StoredMessage → MessageBook → MessageBook
append peer m b =
    let log = get_or (Maps.get peer b.logs) [] in
    record b { logs = Maps.set peer (capped (log ++ m ∷ [])) b.logs }

-- `!(ts < cutoff)`, with the window added instead of a difference that may be negative.
abbrev pub is_recent : ℕ → Str × ℕ → Bool
is_recent now e = not (ltb (e.1 + max_msg_age_ms + max_msg_skew_ms) now)

-- The `while` loop over the oldest entries.
unfoldable pub evict : Map Str ℕ → Map Str ℕ
evict [] = []
evict (e ∷ m) = let rest = evict m in if leb max_seen_ids (length (e ∷ m)) then rest else e ∷ m

unfoldable pub mark_seen : (id : Str) → (ts_ms now : ℕ) → MessageBook → Bool × MessageBook
unfolding evict
mark_seen id ts_ms now b =
    if Maps.has id b.seen
    then (false, b)
    else (true, record b { seen = Maps.set id ts_ms (evict (filterb (is_recent now) b.seen)) })

unfoldable pub peers : MessageBook → List Str
peers b = map (λ e. e.0) b.logs

-- The replay guard of an inbound message: its time is in the window and its id is new.
abbrev pub in_freshness_window : (ts_ms now : ℕ) → Bool
in_freshness_window ts_ms now =
    not (ltb (ts_ms + max_msg_age_ms) now || ltb (now + max_msg_skew_ms) ts_ms)

module _ (p : Platform) where
  unfoldable pub message_payload : Identity → PeerPub → (body uuid : Str) → (now : ℕ) → Json
  message_payload self recipient body uuid now = obj (
      field (lit "typ") (str (lit "message")) (
        field (lit "id") (str uuid) (
          field (lit "node") (str (to_b64 p self.ed_public)) (
            field (lit "to") (str recipient.ed25519)
              (field (lit "body") (str body) (field (lit "ts") (str (p.iso_date now)) end))))))

  -- `uuid` is the result of `crypto.randomUUID()`, and `entropy` that of the sealed box.
  unfoldable pub seal_message :
      Identity → PeerPub → (body uuid : Str) → (entropy now : ℕ) → Result Thrown Str
  unfolding message_payload
  seal_message self recipient body uuid entropy now = do
    key ← or_throw (from_b64 p recipient.x25519) other_error
    blob ←
        or_throw
          (seal_sign p entropy (message_payload self recipient body uuid now) self.ed_secret key)
          other_error
    ok (to_b64 p blob)

  abbrev marked : Bool × MessageBook → Result Thrown MessageBook
  marked (true, b) = ok b
  marked (false, b) = err verification_error

  abbrev string_of : Option Json → Bool
  string_of none = true
  string_of (some v) = has_text v

  unfoldable pub guard_message : Json → (now : ℕ) → MessageBook → Result Thrown MessageBook
  guard_message payload now b = do
    ensure (string_of (property (lit "ts") payload)) other_error
    ts_ms ←
        or_throw (p.parse_date (text_or_undefined (property (lit "ts") payload))) verification_error
    ensure (in_freshness_window ts_ms now) verification_error
    id ← or_throw (as_text (property (lit "id") payload)) verification_error
    ensure (not (id == [])) verification_error
    marked (mark_seen id ts_ms now b)

  unfoldable pub message_of : Json → Message
  message_of payload = record {
    id = as_text (property (lit "id") payload);
    sender = text_or_undefined (property (lit "node") payload);
    to = text_or_undefined (property (lit "to") payload);
    body = text_or_undefined (property (lit "body") payload);
    ts = text_or_undefined (property (lit "ts") payload);
  }

  abbrev is_text : Str → Option Json → Bool
  is_text s (some (str t)) = s == t
  is_text s _ = false

  -- `String(payload.k)`, which may throw.
  abbrev string_field : (k : Str) → Json → Result Thrown (Unit {0})
  string_field k payload = ensure (string_of (property k payload)) other_error

  unfoldable pub read_message : Json → Result Thrown Message
  read_message payload = do
    string_field (lit "node") payload
    string_field (lit "to") payload
    string_field (lit "body") payload
    string_field (lit "ts") payload
    ok (message_of payload)

  -- Up to the replay guard.
  unfoldable pub addressed_payload :
      Identity → (blob_b64 : Str) → (Str → Option Bytes) → Result Thrown Json
  addressed_payload self blob_b64 verify_key_for = do
    blob ← or_throw (from_b64 p blob_b64) other_error
    payload ← open_verify p blob self.x_public self.x_private verify_key_for
    ensure (is_text (lit "message") (property (lit "typ") payload)) verification_error
    ensure (is_text (to_b64 p self.ed_public) (property (lit "to") payload)) verification_error
    ok payload

  -- `openMessage` with the book as its replay guard, as the inbound route calls it. The id stays
  -- marked as seen where the reading of the message then throws.
  unfoldable pub open_message :
      Identity
      → (blob_b64 : Str) → (Str → Option Bytes)
      → (now : ℕ) → MessageBook
      → Result Thrown Message × MessageBook
  open_message self blob_b64 verify_key_for now b =
      elim (addressed_payload self blob_b64 verify_key_for) [
        | err e ↦ (err e, b)
        | ok payload ↦ elim (guard_message payload now b) [
          | err e ↦ (err e, b)
          | ok b' ↦ (read_message payload, b')
        ]
      ]

  abbrev stored_incoming : Message → StoredMessage
  stored_incoming m = record { message = record m { id = none }; dir = incoming }

  -- POST /api/messages/inbound (main.ts): open, then append under the sender.
  unfoldable pub receive_message :
      Identity
      → (blob_b64 : Str) → (Str → Option Bytes)
      → (now : ℕ) → MessageBook
      → Result Thrown (Unit {0}) × MessageBook
  receive_message self blob_b64 verify_key_for now b =
      let (r, b') = open_message self blob_b64 verify_key_for now b in
      elim r [ err e ↦ (err e, b') | ok m ↦ (ok tt, append m.sender (stored_incoming m) b') ]
