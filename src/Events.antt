-- ===== src/Events.antt =====
-- core/events.ts and the route /events/report of main.ts: signed reports of security events, and
-- the collector that keeps the latest of each node. The events stay JSON values, as they are
-- signed and stored with all their fields.
pub mod Attribution
pub mod Collect
pub mod Roster
pub mod Delivery
pub mod Feed
pub mod FeedOrder
use vpn_pi.Common.{
  ℕ, zero, suc, Bool, true, false, not, ◌&&◌, Option, none, some, List, [], ◌∷◌, Str, lit, str_eq,
  ◌==◌, ltb, is_some, get_or, if◌then◌else◌,
}
use vpn_pi.Errors.{Thrown, event_error}
use vpn_pi.Errors.Result.{Result, ok, err, ◌>>=◌, ◌>>◌, or_throw, ensure}
use vpn_pi.Json.{
  Json, null, bool, num, str, arr, obj, Items, nil, cons, field, end, property, as_text,
}
use vpn_pi.Platform.{Platform}
use vpn_pi.Codec.{to_b64}
use vpn_pi.Identity.{Identity}
use vpn_pi.Friends.Wire.{sign_json, verify_json}
use vpn_pi.Friends.Book.{FriendBook, FriendRecord, friend}
use vpn_pi.Node.State.{Http}
use vpn_pi.Node.Bodies.{read_json}

pub record EventReport : Type 0 where
  pub node : Str
  pub label : Str
  pub events : Items
  pub at : Str
  pub sig : Str

abbrev pub max_report_events : ℕ
max_report_events = 200

unfoldable pub report_signable : EventReport → Json
report_signable r = obj (
    field (lit "node") (str r.node) (
      field (lit "label") (str r.label)
        (field (lit "at") (str r.at) (field (lit "events") (arr r.events) end))))

abbrev pub as_items : Option Json → Option Items
as_items (some (arr xs)) = some xs
as_items _ = none

abbrev pub items_length : Items → ℕ
items_length nil = 0
items_length (cons x xs) = suc (items_length xs)

-- `e.state === undefined || typeof e.state === "string"`.
abbrev is_state : Option Json → Bool
is_state none = true
is_state (some v) = is_some (as_text (some v))

unfoldable pub is_event : Json → Bool
is_event e =
    is_some (as_text (property (lit "kind") e))
    && is_some (as_text (property (lit "subject") e))
    && is_some (as_text (property (lit "detail") e))
    && is_state (property (lit "state") e)

unfoldable pub all_events : Items → Bool
all_events nil = true
all_events (cons x xs) = is_event x && all_events xs

-- A body that is no object has none of the fields.
unfoldable pub parse_report : Json → Result Thrown EventReport
parse_report body = do
  node ← or_throw (as_text (property (lit "node") body)) event_error
  label ← or_throw (as_text (property (lit "label") body)) event_error
  at ← or_throw (as_text (property (lit "at") body)) event_error
  sig ← or_throw (as_text (property (lit "sig") body)) event_error
  events ← or_throw (as_items (property (lit "events") body)) event_error
  ensure (not (ltb max_report_events (items_length events))) event_error
  ensure (all_events events) event_error
  ok (record { node = node; label = label; events = events; at = at; sig = sig })

-- A row of the table `node_events`, whose key is the node.
pub record NodeEvents : Type 0 where
  pub node : Str
  pub label : Str
  pub events : Items
  pub at : Str
  pub received : Str

-- The table, as the statement of `upsert` uses it.
pub record EventDb (S : Type 0) : Type 0 where
  pub upsert : NodeEvents → S → S

module _ (p : Platform) where
  unfoldable pub sign_report :
      Identity → (label : Str) → Items → (now : ℕ) → Result Thrown EventReport
  sign_report id label events now = do
    let body : EventReport = record {
      node = to_b64 p id.ed_public;
      label = label;
      events = events;
      at = p.iso_date now;
      sig = [];
    }
    sig ← sign_json p (report_signable body) id.ed_secret
    ok (record body { sig = sig })

  -- The `catch` makes every failure a false.
  abbrev held : Result Thrown Bool → Bool
  held (ok b) = b
  held (err e) = false

  unfoldable pub verify_report : EventReport → Bool
  verify_report r = held (verify_json p (report_signable r) r.sig r.node)

  abbrev pub row_of : EventReport → (label : Str) → (now : ℕ) → NodeEvents
  row_of r label now = record {
    node = r.node;
    label = label;
    events = r.events;
    at = r.at;
    received = p.iso_date now;
  }

  unfoldable pub ingest : {S : Type 0} → EventDb S → EventReport → (now : ℕ) → S → Result Thrown S
  ingest db r now s = do
    ensure (verify_report r) event_error
    ok (db.upsert (row_of r r.label now) s)

  abbrev label_of : Option FriendRecord → Str
  label_of none = []
  label_of (some r) = r.peer.label

  -- The collector's own name for a key; the empty text where it has none.
  unfoldable pub known_label : (self_ed label : Str) → FriendBook → Str → Str
  known_label self_ed label book node =
      if node == self_ed then label else label_of (friend node book)

  -- The part of the route /events/report that follows the reading of the body.
  unfoldable pub accept_report :
      {S : Type 0}
      → EventDb S
      → (self_ed label : Str) → FriendBook
      → Json
      → (now : ℕ) → S
      → Result Thrown S
  accept_report db self_ed label book body now s = do
    r ← parse_report body
    ensure (verify_report r) event_error
    ensure (not (known_label self_ed label book r.node == [])) event_error
    ok (db.upsert (row_of r (known_label self_ed label book r.node) now) s)

  -- POST /events/report.
  unfoldable pub report_route :
      (parse_text : Str → Option Json)
      → {S : Type 0} → EventDb S
      → (self_ed label : Str) → FriendBook
      → Http
      → (now : ℕ) → S
      → Result Thrown S
  report_route parse_text db self_ed label book req now s = do
    body ← read_json parse_text req
    accept_report db self_ed label book body now s
