-- ===== src/Events/Collect.antt =====
-- core/events.ts, lines 20 to 101 and the push of main.ts: the local readouts as security events.
use vpn_pi.Common.{
  ℕ, Option, none, some, List, [], ◌∷◌, ◌++◌, map, take, Str, lit, str_eq, ◌==◌, get_or,
  if◌then◌else◌,
}
use vpn_pi.Common.Maps
use vpn_pi.Common.Maps.{Map}
use vpn_pi.Json.{Json, str, obj, Items, nil, cons, Fields, field, end, decimal}
use vpn_pi.Errors.{Thrown}
use vpn_pi.Errors.Result.{Result}
use vpn_pi.Platform.{Platform}
use vpn_pi.Identity.{Identity}
use vpn_pi.Friends.Book.{FriendBook, FriendRecord, friend_by_wg0}
use vpn_pi.Events.{EventReport, sign_report}
use vpn_pi.Sysinfo.Fail2ban.{JailStatus}
use vpn_pi.Sysinfo.Links.{
  WgPeer, WgStatus, DaemonPeer, LinkState, link_ok, classify_link, link_text,
}

pub record SecurityEvent : Type 0 where
  pub kind : Str
  pub subject : Str
  pub detail : Str
  pub state : Option Str

abbrev ban_event : (jail ip : Str) → SecurityEvent
ban_event jail ip = record {
  kind = lit "fail2ban";
  subject = ip;
  detail = lit "blocked by " ++ jail;
  state = none;
}

unfoldable pub ban_events : List JailStatus → List SecurityEvent
ban_events [] = []
ban_events (j ∷ jails) = map (ban_event j.jail) j.banned_ips ++ ban_events jails

-- `[…].filter(Boolean).join(" — ")`; a part that is null is the empty text.
unfoldable pub join_parts : List Str → Str
join_parts [] = []
join_parts (s ∷ ss) =
    let rest = join_parts ss in
    if s == [] then rest else if rest == [] then s else s ++ lit " — " ++ rest

-- `name ? shown : null`.
abbrev shown_if_named : Option Str → Str → Str
shown_if_named none shown = []
shown_if_named (some name) shown = if name == [] then [] else shown

-- The health of a live link; the daemon only adds that it was restored.
unfoldable pub live_state : LinkState → Option DaemonPeer → Str
live_state link_ok (some d) =
    if d.state == lit "restored" then lit "restored" else link_text link_ok
live_state s d = link_text s

abbrev live_age : Option ℕ → Str
live_age none = lit "no handshake yet"
live_age (some age) = decimal age ++ lit "s since handshake"

abbrev endpoint_of : Option DaemonPeer → Str
endpoint_of none = []
endpoint_of (some d) = d.endpoint

-- The daemon's entry for a live peer; a peer without a tunnel address has none.
abbrev pub daemon_of : WgPeer → Map Str DaemonPeer → Option DaemonPeer
daemon_of q daemons = if q.wg0 == [] then none else Maps.get q.wg0 daemons

abbrev pub uncovered : WgPeer → Map Str DaemonPeer → Map Str DaemonPeer
uncovered q daemons = if q.wg0 == [] then daemons else Maps.delete q.wg0 daemons

module _ (name_for : Str → Option Str) where
  unfoldable pub live_event : WgPeer → Option DaemonPeer → SecurityEvent
  live_event q d =
      let ip = if q.wg0 == [] then take 12 q.public_key else q.wg0 in
      record {
        kind = lit "link";
        subject = get_or (name_for q.wg0) ip;
        detail =
            join_parts (
              shown_if_named (name_for q.wg0) ip ∷ live_age q.handshake_age_s ∷ endpoint_of d ∷ []);
        state = some (live_state (classify_link q.handshake_age_s) d);
      }

  -- The events of the live peers, and what is left of the daemon's roster.
  unfoldable pub live_events :
      List WgPeer → Map Str DaemonPeer → List SecurityEvent × Map Str DaemonPeer
  live_events [] daemons = ([], daemons)
  live_events (q ∷ qs) daemons =
      let (events, left) = live_events qs (uncovered q daemons) in
      (live_event q (daemon_of q daemons) ∷ events, left)

  abbrev daemon_age : Option Str → Str
  daemon_age none = []
  daemon_age (some age) =
      if age == []
      then []
      else if age == lit "never"
      then lit "no handshake yet"
      else lit "handshake " ++ age ++ lit " ago"

  unfoldable pub daemon_event : Str → DaemonPeer → SecurityEvent
  daemon_event peer d = record {
    kind = lit "link";
    subject = get_or (name_for peer) peer;
    detail =
        join_parts
          (shown_if_named (name_for peer) peer ∷ daemon_age d.handshake_age ∷ d.endpoint ∷ []);
    state = some d.state;
  }

  unfoldable pub daemon_events : Map Str DaemonPeer → List SecurityEvent
  daemon_events [] = []
  daemon_events ((peer, d) ∷ m) =
      let rest = daemon_events m in if d.state == [] then rest else daemon_event peer d ∷ rest

  -- `new Map(daemon.map((d) => [d.peer, d]))`.
  unfoldable pub by_peer : List DaemonPeer → Map Str DaemonPeer → Map Str DaemonPeer
  by_peer [] m = m
  by_peer (d ∷ ds) m = by_peer ds (Maps.set d.peer d m)

  unfoldable pub collect_local : List JailStatus → WgStatus → List DaemonPeer → List SecurityEvent
  collect_local jails wg daemon =
      let (events, left) = live_events wg.peers (by_peer daemon []) in
      ban_events jails ++ (events ++ daemon_events left)

abbrev state_field : Option Str → Fields
state_field none = end
state_field (some s) = field (lit "state") (str s) end

abbrev pub event_json : SecurityEvent → Json
event_json e = obj (
    field (lit "kind") (str e.kind) (
      field (lit "subject") (str e.subject)
        (field (lit "detail") (str e.detail) (state_field e.state))))

unfoldable pub events_json : List SecurityEvent → Items
events_json [] = nil
events_json (e ∷ es) = cons (event_json e) (events_json es)

abbrev label_of : Option FriendRecord → Option Str
label_of none = none
label_of (some r) = some r.peer.label

-- A peer's label by the friend book.
abbrev pub name_by_book : FriendBook → Str → Option Str
name_by_book book wg0 = label_of (friend_by_wg0 wg0 book)

-- What `push` of main.ts sends to the collector: the peers are named by the friend book.
unfoldable pub push_report :
    Platform
    → Identity
    → (label : Str) → FriendBook
    → List JailStatus
    → WgStatus
    → List DaemonPeer
    → (now : ℕ) → Result Thrown EventReport
push_report p id label book jails wg daemon now =
    sign_report p id label (events_json (collect_local (name_by_book book) jails wg daemon)) now
