-- ===== src/Events/Delivery.antt =====
-- A node's own report at the collector: `push` of main.ts, and the route /events/report.
use vpn_pi.Common.{
  ℕ, suc, ◌≤◌, ◌≡◌, ◌≢◌, refl, ap, true, false, Option, none, some, List, [], ◌∷◌, Str, lit, str_eq,
  str_beq, str_beq_iff, ◌==◌, length, arith,
}
use vpn_pi.Errors.Result.{ok, >>=-eq-ok}
use vpn_pi.Json.{Json, str, arr, obj, Items, field, end, property, as_text, member}
use vpn_pi.Platform.{Platform, IsLawful}
use vpn_pi.Codec.{to_b64}
use vpn_pi.Identity.{Identity, IsKeyed}
use vpn_pi.Friends.Wire.{sign_json}
use vpn_pi.Friends.Book.{FriendBook}
use vpn_pi.Node.State.{Http}
use vpn_pi.Node.Bodies.{max_json_body, is_object, read_json}
use vpn_pi.Friends.Handshake.{verify_json-sign_json}
use vpn_pi.Events.{
  EventReport, EventDb, max_report_events, report_signable, items_length, is_event, all_events,
  parse_report, sign_report, verify_report, row_of, known_label, accept_report, report_route,
}
use vpn_pi.Events.Collect.{
  SecurityEvent, event_json, events_json, collect_local, push_report, name_by_book,
}
use vpn_pi.Sysinfo.Fail2ban.{JailStatus}
use vpn_pi.Sysinfo.Links.{WgStatus, DaemonPeer}

-- `JSON.stringify(report)`, read again.
abbrev pub report_json : EventReport → Json
report_json r = obj (
    field (lit "node") (str r.node) (
      field (lit "label") (str r.label) (
        field (lit "events") (arr r.events)
          (field (lit "at") (str r.at) (field (lit "sig") (str r.sig) end)))))

state-is_event :
    (kind subject detail : Str) (state : Option Str)
    → is_event
        (event_json (record { kind = kind; subject = subject; detail = detail; state = state }))
      ≡ true
unfolding is_event property member as_text str_beq
state-is_event kind subject detail none = refl
state-is_event kind subject detail (some s) = refl

events_json-all_events : (es : List SecurityEvent) → all_events (events_json es) ≡ true
unfolding all_events events_json
events_json-all_events [] = refl
events_json-all_events (e ∷ es) =
    ground (arith, state-is_event e.kind e.subject e.detail e.state, events_json-all_events es)

items_length-events_json : (es : List SecurityEvent) → items_length (events_json es) ≡ length es
unfolding events_json
items_length-events_json [] = refl
items_length-events_json (e ∷ es) = ap suc (items_length-events_json es)

parse_report-report_json :
    (r : EventReport)
    → items_length r.events ≤ max_report_events
    → all_events r.events ≡ true
    → parse_report (report_json r) ≡ ok r
unfolding parse_report property member as_text str_beq
parse_report-report_json r h k = ground arith

read_json-short :
    (parse_text : Str → Option Json) (req : Http) (body : Json)
    → parse_text req.text ≡ some body
    → req.content_length ≤ max_json_body
    → length req.text ≤ max_json_body
    → is_object body ≡ true
    → read_json parse_text req ≡ ok body
unfolding read_json
read_json-short parse_text req body carried short_header short shaped = ground arith

module _ (p : Platform) (law : IsLawful p) (id : Identity) (keyed : IsKeyed p id) where
  abbrev unsigned : (label : Str) → Items → (now : ℕ) → EventReport
  unsigned label events now = record {
    node = to_b64 p id.ed_public;
    label = label;
    events = events;
    at = p.iso_date now;
    sig = [];
  }

  sign_report-verify_report :
      (label : Str) (events : Items) (now : ℕ) (r : EventReport)
      → sign_report p id label events now ≡ ok r
      → (verify_report p r ≡ true) × (r.events ≡ events) × (r.node ≡ to_b64 p id.ed_public)
  unfolding sign_report verify_report report_signable
  sign_report-verify_report label events now r h =
      let body = unsigned label events now in
      let (sig, signed, made) = >>=-eq-ok (sign_json p (report_signable body) id.ed_secret) _ h in
      let valid = verify_json-sign_json p law id keyed (report_signable body) sig signed in
      let same : r ≡ record body { sig = sig } = cc in rw (same, valid) (refl, refl, refl)

  accept_report-push_report :
      {S : Type 0} (db : EventDb S) (label self_ed self_label : Str) (own book : FriendBook)
      (jails : List JailStatus) (wg : WgStatus) (daemon : List DaemonPeer) (now later : ℕ)
      (r : EventReport) (s : S)
      → push_report p id label own jails wg daemon now ≡ ok r
      → length (collect_local (name_by_book own) jails wg daemon) ≤ max_report_events
      → known_label p self_ed self_label book (to_b64 p id.ed_public) ≢ []
      → accept_report p db self_ed self_label book (report_json r) later s
        ≡ ok (db.upsert (row_of p r (known_label p self_ed self_label book r.node) later) s)
  unfolding push_report accept_report
  accept_report-push_report db label self_ed self_label own book jails wg daemon now later r s
        pushed few known =
      let es = collect_local (name_by_book own) jails wg daemon in
      let (valid, same, node) = sign_report-verify_report label (events_json es) now r pushed in
      let bounded : items_length r.events ≤ max_report_events =
        rw same (omega (arith, items_length-events_json es)) in
      let shaped : all_events r.events ≡ true = rw same (events_json-all_events es) in
      let parsed = parse_report-report_json r bounded shaped in
      let named : (known_label p self_ed self_label book r.node == []) ≡ false = rw node (
        ground (
          arith,
          str_beq_iff (known_label p self_ed self_label book (to_b64 p id.ed_public)) [],
        )) in
      rw (parsed, valid, named) refl

  -- A request whose text JSON.parse reads as the report that a node pushes makes the collector store
  -- the report under its own name for the node, if the node knows at most 200 events, the request
  -- is of at most 64 KiB by its header and by its text, and the collector has a name for the node's
  -- key. libsodium and JSON behave as documented.
  pub report_route-push_report :
      {S : Type 0} (parse_text : Str → Option Json) (db : EventDb S)
      (label self_ed self_label : Str) (own book : FriendBook) (jails : List JailStatus)
      (wg : WgStatus) (daemon : List DaemonPeer) (now later : ℕ) (r : EventReport) (req : Http)
      (s : S)
      → push_report p id label own jails wg daemon now ≡ ok r
      → length (collect_local (name_by_book own) jails wg daemon) ≤ max_report_events
      → parse_text req.text ≡ some (report_json r)
      → req.content_length ≤ max_json_body
      → length req.text ≤ max_json_body
      → known_label p self_ed self_label book (to_b64 p id.ed_public) ≢ []
      → report_route p parse_text db self_ed self_label book req later s
        ≡ ok (db.upsert (row_of p r (known_label p self_ed self_label book r.node) later) s)
  unfolding report_route
  report_route-push_report parse_text db label self_ed self_label own book jails wg daemon now later
        r req s pushed few carried short_header short known =
      rw (read_json-short parse_text req (report_json r) carried short_header short refl) (
        accept_report-push_report db label self_ed self_label own book jails wg daemon now later r s
          pushed few known)
