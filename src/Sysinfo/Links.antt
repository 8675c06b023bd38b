-- ===== src/Sysinfo/Links.antt =====
-- core/sysinfo.ts, lines 96 to 220: the links of `wg show … dump`, the ladder of their health, and
-- the journal of the self-heal daemon. `to_whole` is Number(…) of a field, `none` where it is not
-- finite; the times that `wg` prints are whole, and a negative number, which counts as no
-- handshake, is 0. The daemon names its peers by texts.
use vpn_pi.Common.{
  ℕ, ◌-◌, ◌/◌, Bool, true, false, Option, none, some, List, [], ◌∷◌, map, Str, lit, str_eq, ◌==◌,
  ltb, leb, drop, if◌then◌else◌,
}
use vpn_pi.Common.Maps
use vpn_pi.Common.Maps.{Map}
use vpn_pi.Json.{Json, null, str, property, text_of}
use vpn_pi.Canary.{text_or_empty}
use vpn_pi.Sysinfo.Fail2ban.{JailStatus}
use vpn_pi.Sysinfo.Lines.{split, filled_lines, field_at, is_truthy, message_of_line}

pub record WgPeer : Type 0 where
  pub wg0 : Str
  pub public_key : Str
  pub handshake_age_s : Option ℕ
  pub up : Bool

pub record WgStatus : Type 0 where
  pub iface : Str
  pub peers : List WgPeer

abbrev pub up_window_s : ℕ
up_window_s = 180

-- `handshake > 0 ? Math.max(0, nowS - handshake) : null`, and whether it is recent.
abbrev pub age_of : (handshake now_s : ℕ) → Option ℕ
age_of handshake now_s = if ltb 0 handshake then some (now_s - handshake) else none

abbrev pub is_up : Option ℕ → Bool
is_up none = false
is_up (some age) = leb age up_window_s

-- The first of `s.split(c)`.
first_of : (c : ℕ) → Str → Str
first_of c s = field_at 0 [] (split c s)

module _ (to_whole : Str → Option ℕ) where
  unfoldable pub wg_peer : (now_s : ℕ) → Str → Option WgPeer
  unfolding first_of
  wg_peer now_s line =
      let f = split 0x09 line in
      elim (to_whole (field_at 4 (lit "0") f)) [
        | none ↦ none
        | some handshake ↦ some (record {
          wg0 = first_of b'/' (first_of b',' (field_at 3 [] f));
          public_key = field_at 0 [] f;
          handshake_age_s = age_of handshake now_s;
          up = is_up (age_of handshake now_s);
        })
      ]

  -- A malformed line is left out.
  wg_peers : (now_s : ℕ) → List Str → List WgPeer
  wg_peers now_s [] = []
  wg_peers now_s (line ∷ lines) =
      let rest = wg_peers now_s lines in
      elim (wg_peer now_s line) [ none ↦ rest | some q ↦ q ∷ rest ]

  -- `now` is in milliseconds.
  unfoldable pub read_wg : (iface : Str) → Option Str → (now : ℕ) → WgStatus
  unfolding wg_peers
  read_wg iface none now = record { iface = iface; peers = [] }
  read_wg iface (some out) now = record {
    iface = iface;
    peers = wg_peers (now / 1000) (drop 1 (filled_lines out));
  }

abbrev pub stale_after_s : ℕ
stale_after_s = 150

abbrev pub degraded_after_s : ℕ
degraded_after_s = 180

pub data LinkState : Type 0 where
  link_ok stale degraded : LinkState

unfoldable pub classify_link : Option ℕ → LinkState
classify_link none = degraded
classify_link (some age) =
    if leb degraded_after_s age then degraded else if leb stale_after_s age then stale else link_ok

unfoldable pub link_text : LinkState → Str
link_text link_ok = lit "ok"
link_text stale = lit "stale"
link_text degraded = lit "degraded"

pub record DaemonPeer : Type 0 where
  pub peer : Str
  pub state : Str
  pub endpoint : Str
  pub handshake_age : Option Str

abbrev is_text : Option Json → Str → Bool
is_text (some (str s)) t = s == t
is_text _ t = false

-- The state that an event of the self-heal daemon carries.
unfoldable pub state_of_event : Json → Option Json
state_of_event v =
    let msg = property (lit "msg") v in
    if is_text msg (lit "state change")
    then property (lit "to") v
    else if is_text msg (lit "peer")
    then property (lit "status") v
    else none

abbrev text_if_truthy : Option Json → Option Str
text_if_truthy none = none
text_if_truthy (some v) = if is_truthy (some v) then some (text_of v) else none

-- What one event does to the latest state of each peer.
unfoldable pub note_event : Json → Map Str DaemonPeer → Map Str DaemonPeer
note_event v latest = elim (text_if_truthy (property (lit "peer") v)) [
  | none ↦ latest
  | some peer ↦ elim (text_if_truthy (state_of_event v)) [
    | none ↦ latest
    | some state ↦
        Maps.set peer
          (record {
            peer = peer;
            state = state;
            endpoint = text_or_empty (property (lit "endpoint") v);
            handshake_age = text_if_truthy (property (lit "handshake_age") v);
          })
          latest
  ]
]

module _ (parse_text : Str → Option Json) where
  -- The event of a journal line, `none` where the `catch` skips the line.
  abbrev event_of_line : Str → Option Json
  event_of_line line = elim (message_of_line parse_text line) [
    | none ↦ none
    | some message ↦ parse_text message
  ]

  -- `none` where it throws: a MESSAGE that reads as null has no `peer`.
  unfoldable pub note_lines : List Str → Map Str DaemonPeer → Option (Map Str DaemonPeer)
  note_lines [] latest = some latest
  note_lines (line ∷ lines) latest = elim (event_of_line line) [
    | none ↦ note_lines lines latest
    | some null ↦ none
    | some v ↦ note_lines lines (note_event v latest)
  ]

  unfoldable pub read_daemon : Option Str → Option (List DaemonPeer)
  read_daemon none = some []
  read_daemon (some out) = elim (note_lines (filled_lines out) []) [
    | none ↦ none
    | some latest ↦ some (map (λ e. e.1) latest)
  ]

-- What --mock shows.
abbrev pub mock_fail2ban : List JailStatus
mock_fail2ban =
    record {
      jail = lit "sshd";
      currently_banned = 2;
      total_banned = 7;
      banned_ips = lit "185.220.101.4" ∷ lit "45.134.26.9" ∷ [];
    }
    ∷ []

abbrev pub mock_wg : (iface : Str) → WgStatus
mock_wg iface = record {
  iface = iface;
  peers =
      record {
        wg0 = lit "10.42.0.2";
        public_key = lit "vega-mock-pub";
        handshake_age_s = some 12;
        up = true;
      }
      ∷ record {
        wg0 = lit "10.42.0.5";
        public_key = lit "sirius-mock-pub";
        handshake_age_s = some 240;
        up = false;
      }
      ∷ [];
}

abbrev pub mock_daemon : List DaemonPeer
mock_daemon =
    record {
      peer = lit "sirius-m…";
      state = lit "degraded";
      endpoint = lit "203.0.113.9:51820";
      handshake_age = none;
    }
    ∷ []
