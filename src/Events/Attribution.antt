-- ===== src/Events/Attribution.antt =====
-- What a report must prove before the collector stores it (/events/report of main.ts).
use vpn_pi.Common.{
  ℕ, ◌≤◌, ◌≡◌, ◌≢◌, refl, subst, true, not, ◌⊎◌, inl, inr, Option, some, [], Str, lit, str_eq,
  str_beq_iff, ◌==◌, ltb, Bool-cases, Option-cases, arith,
}
use vpn_pi.Errors.{event_error}
use vpn_pi.Errors.Result.{ok, >>=-eq-ok, ensure-ok, or_throw-ok}
use vpn_pi.Json.{Json, property, as_text}
use vpn_pi.Platform.{Platform}
use vpn_pi.Friends.Book.{FriendBook, FriendRecord, friend}
use vpn_pi.Node.State.{Http}
use vpn_pi.Node.Bodies.{read_json}
use vpn_pi.Events.{
  EventReport, EventDb, max_report_events, items_length, all_events, as_items, parse_report,
  verify_report, row_of, known_label, accept_report, report_route,
}

-- The label is the collector's own for the key: this node's, or that of a friend under the key.
abbrev pub IsKnown : (self_ed label : Str) → FriendBook → Str → Str → Type 0
IsKnown self_ed label book node name =
    ((node ≡ self_ed) × (name ≡ label))
    ⊎ ((r : FriendRecord) × (friend node book ≡ some r) × (r.peer.label ≡ name))

known_label-IsKnown :
    (p : Platform) (self_ed label : Str) (book : FriendBook) (node : Str)
    → known_label p self_ed label book node ≢ []
    → IsKnown self_ed label book node (known_label p self_ed label book node)
unfolding known_label
known_label-IsKnown p self_ed label book node h = elim (Bool-cases (node == self_ed)) [
  | inl own ↦ rw own (inl ((str_beq_iff node self_ed).0 own, refl))
  | inr other ↦ elim (Option-cases (friend node book)) [
    | inl stranger ↦ absurd (h (rw (other, stranger) refl))
    | inr (r, found) ↦ rw (other, found) (inr (r, refl, refl))
  ]
]

-- A report that is parsed carries the events of the body, and these are at most 200, each with
-- texts for its kind, subject and detail, and for its state if it has one.
pub parse_report-bounded :
    (body : Json) (r : EventReport)
    → parse_report body ≡ ok r
    → (items_length r.events ≤ max_report_events)
      × (all_events r.events ≡ true)
      × (as_items (property (lit "events") body) ≡ some r.events)
unfolding parse_report
parse_report-bounded body r h =
    let (node, e1, h1) = or_throw-ok (as_text (property (lit "node") body)) event_error _ h in
    let (label, e2, h2) = or_throw-ok (as_text (property (lit "label") body)) event_error _ h1 in
    let (at, e3, h3) = or_throw-ok (as_text (property (lit "at") body)) event_error _ h2 in
    let (sig, e4, h4) = or_throw-ok (as_text (property (lit "sig") body)) event_error _ h3 in
    let (events, e5, h5) = or_throw-ok (as_items (property (lit "events") body)) event_error _ h4 in
    let (few, h6) =
      ensure-ok (not (ltb max_report_events (items_length events))) event_error _ h5 in
    let (good, h7) = ensure-ok (all_events events) event_error _ h6 in
    let given : EventReport = record {
      node = node;
      label = label;
      events = events;
      at = at;
      sig = sig;
    } in
    let same : given ≡ r = ground (arith, h7) in
    let short : items_length events ≤ max_report_events = ground (arith, few) in
    subst
      (λ x.
        (items_length x.events ≤ max_report_events)
        × (all_events x.events ≡ true)
        × (as_items (property (lit "events") body) ≡ some x.events))
      same (short, good, e5)

module _ (p : Platform) where
  accept_report-attributed :
      {S : Type 0} (db : EventDb S) (self_ed label : Str) (book : FriendBook) (body : Json)
      (now : ℕ) (s s' : S)
      → accept_report p db self_ed label book body now s ≡ ok s'
      → (r : EventReport) × (name : Str) × (parse_report body ≡ ok r)
        × (verify_report p r ≡ true)
        × IsKnown self_ed label book r.node name
        × (s' ≡ db.upsert (row_of p r name now) s)
  unfolding accept_report
  accept_report-attributed db self_ed label book body now s s' h =
      let (r, parsed, h1) = >>=-eq-ok (parse_report body) _ h in
      let (signed, h2) = ensure-ok (verify_report p r) event_error _ h1 in
      let name = known_label p self_ed label book r.node in
      let (there, h3) = ensure-ok (not (name == [])) event_error _ h2 in
      let named : name ≢ [] = λ e. absurd (ground (arith, (str_beq_iff name []).1 e)) in
      (r, name, parsed, signed, known_label-IsKnown p self_ed label book r.node named, ground arith)

  -- A report is stored only if the body that the request carries is a report signed with the key
  -- that it names, and only under the name that the collector itself has for that key, as itself
  -- or as the label of a friend.
  pub report_route-attributed :
      {S : Type 0} (parse_text : Str → Option Json) (db : EventDb S) (self_ed label : Str)
      (book : FriendBook) (req : Http) (now : ℕ) (s s' : S)
      → report_route p parse_text db self_ed label book req now s ≡ ok s'
      → (body : Json) × (r : EventReport) × (name : Str) × (read_json parse_text req ≡ ok body)
        × (parse_report body ≡ ok r)
        × (verify_report p r ≡ true)
        × IsKnown self_ed label book r.node name
        × (s' ≡ db.upsert (row_of p r name now) s)
  unfolding report_route
  report_route-attributed parse_text db self_ed label book req now s s' h =
      let (body, given, h1) = >>=-eq-ok (read_json parse_text req) _ h in
      let (r, name, parsed, signed, known, stored) =
        accept_report-attributed db self_ed label book body now s s' h1 in
      (body, r, name, given, parsed, signed, known, stored)
