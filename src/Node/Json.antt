-- ===== src/Node/Json.antt =====
-- The JSON of the records that main.ts answers with or sends: what `JSON.stringify` reads of them.
use vpn_pi.Common.{ℕ, false, Option, none, some, List, [], ◌∷◌, map, Str, lit, length}
use vpn_pi.Json.{Json, null, num, str, arr, obj, Items, nil, cons, Fields, end, field, integer}
use vpn_pi.Friends.Wire.{PeerPub, FriendToken, FriendRevoke, peer_pub_json}
use vpn_pi.Friends.Book.{
  FriendState, offered, pending, friends, FriendRecord, FriendBook, list_friends, list_pending,
  list_offered,
}
use vpn_pi.Messages.{StoredMessage, Direction, incoming, outgoing}
use vpn_pi.Gate.{
  Mode, island, internet, GateState, LogEntry, Action, open_action, close_action, deny_action,
}
use vpn_pi.Share.{SharedFile}
use vpn_pi.Sysinfo.Fail2ban.{JailStatus}
use vpn_pi.Sysinfo.Links.{DaemonPeer}

abbrev pub items : List Json → Items
items [] = nil
items (v ∷ vs) = cons v (items vs)

abbrev pub fields : List (Str × Json) → Fields
fields [] = end
fields ((k, v) ∷ fs) = field k v (fields fs)

abbrev pub object : List (Str × Json) → Json
object fs = obj (fields fs)

abbrev pub number : ℕ → Json
number n = num (integer false n)

abbrev pub text_or_null : Option Str → Json
text_or_null none = null
text_or_null (some s) = str s

-- A token and a notice as they are sent.
unfoldable pub token_json : FriendToken → Json
token_json t = object (
    (lit "v", number t.v)
    ∷ (lit "from", peer_pub_json t.sender)
    ∷ (lit "nonce", str t.nonce)
    ∷ (lit "issued", str t.issued)
    ∷ (lit "expires", str t.expires)
    ∷ (lit "sig", str t.sig)
    ∷ [])

unfoldable pub notice_json : FriendRevoke → Json
notice_json r = object (
    (lit "v", number r.v)
    ∷ (lit "from", str r.sender)
    ∷ (lit "target", str r.target)
    ∷ (lit "nonce", str r.nonce)
    ∷ (lit "at", str r.at)
    ∷ (lit "sig", str r.sig)
    ∷ [])

state_text : FriendState → Str
state_text offered = lit "offered"
state_text pending = lit "pending"
state_text friends = lit "friends"

unfoldable pub friend_json : FriendRecord → Json
unfolding state_text
friend_json r = object (
    (lit "peer", peer_pub_json r.peer)
    ∷ (lit "state", str (state_text r.state))
    ∷ (lit "nonce", str r.nonce)
    ∷ (lit "since", str r.since)
    ∷ [])

pending_json : PeerPub × Str → Json
pending_json (peer, received) =
    object ((lit "peer", peer_pub_json peer) ∷ (lit "received", str received) ∷ [])

-- The lists of /api/friends and /admin/friends.
unfoldable pub friends_json : FriendBook → Json
unfolding pending_json
friends_json b = object (
    (lit "friends", arr (items (map friend_json (list_friends b))))
    ∷ (lit "pending", arr (items (map pending_json (list_pending b))))
    ∷ (lit "offered", number (length (list_offered b)))
    ∷ [])

direction_text : Direction → Str
direction_text incoming = lit "in"
direction_text outgoing = lit "out"

unfoldable pub message_json : StoredMessage → Json
unfolding direction_text
message_json m = object (
    (lit "dir", str (direction_text m.dir))
    ∷ (lit "from", str m.message.sender)
    ∷ (lit "to", str m.message.to)
    ∷ (lit "body", str m.message.body)
    ∷ (lit "ts", str m.message.ts)
    ∷ [])

unfoldable pub mode_text : Mode → Str
mode_text island = lit "island"
mode_text internet = lit "internet"

action_text : Action → Str
action_text open_action = lit "open"
action_text close_action = lit "close"
action_text deny_action = lit "deny"

-- An entry of the gate's log has an admin only if somebody asked.
admin_field : Option Str → List (Str × Json)
admin_field none = []
admin_field (some admin) = (lit "admin", str admin) ∷ []

module _ (iso_date : ℕ → Str) where
  abbrev pub date_or_null : Option ℕ → Json
  date_or_null none = null
  date_or_null (some t) = str (iso_date t)

  unfoldable pub gate_json : GateState → Json
  gate_json g =
      object
        ((lit "state", str (mode_text g.state)) ∷ (lit "closes_at", date_or_null g.closes_at) ∷ [])

  unfoldable pub log_json : LogEntry → Json
  unfolding action_text admin_field
  log_json e = object (
      (lit "at", str (iso_date e.at))
      ∷ (lit "action", str (action_text e.action))
      ∷ (lit "reason", str e.reason)
      ∷ admin_field e.admin)

  unfoldable pub file_json : SharedFile → Json
  file_json f = object (
      (lit "id", number f.id)
      ∷ (lit "name", str f.name)
      ∷ (lit "size", number f.size)
      ∷ (lit "node", str f.node)
      ∷ (lit "modified", str (iso_date f.modified))
      ∷ [])

unfoldable pub jail_json : JailStatus → Json
jail_json j = object (
    (lit "jail", str j.jail)
    ∷ (lit "currently_banned", number j.currently_banned)
    ∷ (lit "total_banned", number j.total_banned)
    ∷ (lit "banned_ips", arr (items (map str j.banned_ips)))
    ∷ [])

age_field : Option Str → List (Str × Json)
age_field none = []
age_field (some age) = (lit "handshakeAge", str age) ∷ []

unfoldable pub daemon_json : DaemonPeer → Json
unfolding age_field
daemon_json d = object (
    (lit "peer", str d.peer)
    ∷ (lit "state", str d.state)
    ∷ (lit "endpoint", str d.endpoint)
    ∷ age_field d.handshake_age)
