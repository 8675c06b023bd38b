-- ===== src/Node/Status.antt =====
-- main.ts, lines 431 to 467 and 490 to 543: the status of the node and of the gate that it shows.
use vpn_pi.Common.{
  ℕ, Bool, true, false, Option, none, some, [], ◌∷◌, map, Str, lit, str_eq, ◌==◌, nat_eq,
  if◌then◌else◌,
}
use vpn_pi.Errors.{other_error}
use vpn_pi.Errors.Result.{ok, or_throw}
use vpn_pi.Json.{Json, null, bool, str, arr, property}
use vpn_pi.Friends.Wire.{PeerPub}
use vpn_pi.Friends.Book.{FriendRecord, FriendBook, friend_by_wg0, list_pending}
use vpn_pi.Gate.{Gate}
use vpn_pi.Sysinfo.Fail2ban.{read_fail2ban}
use vpn_pi.Sysinfo.Links.{WgPeer, read_wg, read_daemon, mock_fail2ban, mock_wg, mock_daemon}
use vpn_pi.Node.State.{
  Runtime, Config, AdminApp, World, Http, Answer, Act, json, give, pure, reading, ◌>>=◌, ◌>>◌,
}
use vpn_pi.Node.Json.{
  object, items, number, text_or_null, mode_text, jail_json, daemon_json, date_or_null,
}
use vpn_pi.Node.Friending.{operator_only}

-- What `gateView` returns.
pub record GateView : Type 0 where
  pub state : Json
  pub closes_at : Json
  pub target : Option Str
  pub target_label : Option Str
  pub reachable : Bool

abbrev pub target_of : Option AdminApp → Str
target_of none = []
target_of (some a) = a.target

abbrev filled : Str → Option Str
filled s = if s == [] then none else some s

-- `v ?? d`.
abbrev pub json_or : Option Json → Json → Json
json_or none d = d
json_or (some null) d = d
json_or (some v) d = v

unfoldable pub view_json : GateView → Json
view_json v = object (
    (lit "state", v.state)
    ∷ (lit "closes_at", v.closes_at)
    ∷ (lit "target", text_or_null v.target)
    ∷ (lit "target_label", text_or_null v.target_label)
    ∷ (lit "reachable", bool v.reachable)
    ∷ [])

module _ (rt : Runtime) (cfg : Config) (w : World) (req : Http) where
  open rt use {platform, sha256, parse_text, to_whole}

  -- The node whose gate is shown, and its name.
  abbrev source_of : Str
  source_of = if target_of cfg.admin_app == [] then cfg.gate_status_url else target_of cfg.admin_app

  abbrev label_for : Option AdminApp → Option Str
  label_for none = filled cfg.gate_status_label
  label_for (some a) = filled (if a.target == [] then cfg.gate_status_label else a.target_label)

  -- A gate node that does not answer is shown as an island.
  abbrev unreachable : GateView
  unreachable = record {
    state = str (lit "island");
    closes_at = null;
    target = some source_of;
    target_label = label_for cfg.admin_app;
    reachable = false;
  }

  -- An answer that is null has no `state`, which throws inside of the `try`.
  abbrev seen_gate : Option Json → GateView
  seen_gate none = unreachable
  seen_gate (some null) = unreachable
  seen_gate (some v) = record {
    state = json_or (property (lit "state") v) (str (lit "unknown"));
    closes_at = json_or (property (lit "closes_at") v) null;
    target = some source_of;
    target_label = label_for cfg.admin_app;
    reachable = true;
  }

  unfoldable pub gate_view : Gate → GateView
  gate_view g =
      if source_of == []
      then record {
        state = str (mode_text g.state.state);
        closes_at = date_or_null platform.iso_date g.state.closes_at;
        target = none;
        target_label = none;
        reachable = true;
      }
      else seen_gate w.gate_status

  unfoldable pub health_route : (version : Str) → (events : Bool) → Act Answer
  health_route version events = do
    mock ← reading (λ n. n.ctx.credentials.mock)
    give (
        json 200 (
          object (
            (lit "ok", bool true)
            ∷ (lit "service", str (lit "islandd"))
            ∷ (lit "version", str version)
            ∷ (lit "mock", bool mock)
            ∷ (lit "events", bool events)
            ∷ [])))

  unfoldable pub gate_route : Act Answer
  gate_route = do view ← reading (λ n. gate_view n.gate); give (json 200 (view_json view))

  abbrev label_json : Option FriendRecord → Json
  label_json none = null
  label_json (some r) = str r.peer.label

  abbrev age_json : Option ℕ → Json
  age_json none = null
  age_json (some age) = number age

  peer_json : FriendBook → WgPeer → Json
  peer_json b q = object (
      (lit "label", label_json (friend_by_wg0 q.wg0 b))
      ∷ (lit "wg0", str q.wg0)
      ∷ (lit "handshake_age_s", age_json q.handshake_age_s)
      ∷ (lit "up", bool q.up)
      ∷ [])

  request_json : PeerPub × Str → Json
  request_json (peer, received) = object (
      (lit "from_label", str peer.label)
      ∷ (lit "from_pubkey", str peer.ed25519)
      ∷ (lit "received", str received)
      ∷ [])

  unfoldable pub home_route : Act Answer
  unfolding peer_json request_json
  home_route = do
    operator_only rt cfg w req
    mock ← reading (λ n. n.ctx.credentials.mock)
    let wg = if mock then mock_wg cfg.wg_iface else read_wg to_whole cfg.wg_iface w.wg_output w.now
    let jails = if mock then mock_fail2ban else read_fail2ban parse_text w.fail2ban_output
    selfheal ← pure (
        if mock
        then ok mock_daemon
        else or_throw (read_daemon parse_text w.daemon_output) other_error)
    view ← reading (λ n. gate_view n.gate)
    book ← reading (λ n. n.ctx.book)
    give (
        json 200 (
          object (
            (lit "gate", view_json view)
            ∷ (
              lit "wg",
              object (
                  (lit "iface", str wg.iface)
                  ∷ (lit "peers", arr (items (map (peer_json book) wg.peers)))
                  ∷ []),
            )
            ∷ (lit "fail2ban", arr (items (map jail_json jails)))
            ∷ (lit "selfheal", arr (items (map daemon_json selfheal)))
            ∷ (lit "requests", arr (items (map request_json (list_pending book))))
            ∷ [])))
