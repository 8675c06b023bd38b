-- ===== src/Tests/Reports.antt =====
-- A friend's report of one blocked address, at the collector.
use vpn_pi.Common.{
  ℕ, ◌≤◌, ◌≡◌, refl, Bool, true, Option, none, some, List, [], ◌∷◌, ◌++◌, Str, lit, get_or,
}
use vpn_pi.Errors.Result.{ok}
use vpn_pi.Json.{Json, str, arr, obj, Items, nil, cons, field, end, property}
use vpn_pi.Canonical.{canonicalize}
use vpn_pi.Friends.Book.{FriendBook, FriendRecord, FriendState}
use vpn_pi.Events.{
  EventReport, EventDb, NodeEvents, max_report_events, items_length, all_events, as_items,
  parse_report, report_signable, verify_report, row_of, accept_report, report_route,
}
use vpn_pi.Events.Attribution.{IsKnown, report_route-attributed}
use vpn_pi.Node.State.{Http}
use vpn_pi.Node.Bodies.{read_json}
use vpn_pi.Tests.Served.{ask}
use vpn_pi.Tests.Toy.{toy}
use vpn_pi.Tests.Books.{alice_book}

abbrev reporter : Str
reporter = 65 ∷ 7 ∷ 65 ∷ []

abbrev events : Items
events =
    cons
      (obj (
        field (lit "kind") (str (lit "fail2ban")) (
          field (lit "subject") (str (lit "192.0.2.1"))
            (field (lit "detail") (str (lit "blocked by sshd")) end))))
      nil

abbrev unsigned : EventReport
unsigned = record { node = reporter; label = lit "root"; events = events; at = lit "t"; sig = [] }

abbrev report : EventReport
report = record unsigned {
  sig = 65 ∷ 7 ∷ (get_or (canonicalize (report_signable unsigned)) [] ++ 65 ∷ []);
}

abbrev body : Json
body = obj (
    field (lit "node") (str report.node) (
      field (lit "label") (str report.label) (
        field (lit "events") (arr events)
          (field (lit "at") (str report.at) (field (lit "sig") (str report.sig) end)))))

abbrev pub table : EventDb (List NodeEvents)
table = record { upsert = λ row rows. row ∷ rows }

abbrev dave : FriendRecord
dave = record {
  peer = record { ed25519 = reporter; x25519 = lit "x"; label = lit "dave"; wg0 = lit "10.42.0.4" };
  state = FriendState.friends;
  nonce = lit "n";
  since = lit "s";
}

abbrev book : FriendBook
book = record alice_book {
  books = record { offered = []; pending = []; friends = (reporter, dave) ∷ []; consumed = [] };
}

parsed : parse_report body ≡ ok report
unfolding parse_report vpn_pi.Json.as_text property vpn_pi.Common.str_beq all_events
    vpn_pi.Events.is_event
parsed = refl

abbrev parse_text : Str → Option Json
parse_text text = some body

abbrev request : Http
request = ask (lit "POST") (lit "/events/report") (lit "{}") []

read : read_json parse_text request ≡ ok body
unfolding read_json
read = refl

stored :
    report_route toy parse_text table (lit "self") (lit "polaris") book request 9 []
    ≡ ok (row_of toy report (lit "dave") 9 ∷ [])
unfolding report_route accept_report read_json parse_report vpn_pi.Json.as_text property
    vpn_pi.Common.str_beq all_events vpn_pi.Events.is_event verify_report
    vpn_pi.Friends.Wire.verify_json vpn_pi.Codec.from_b64 vpn_pi.Common.trim canonicalize
    report_signable vpn_pi.Canonical.encode_string vpn_pi.Tests.Toy.drop_last
    vpn_pi.Events.known_label vpn_pi.Friends.Book.friend vpn_pi.Canonical.escape
    vpn_pi.Canonical.escape_all vpn_pi.Canonical.hex4 vpn_pi.Canonical.str_leb
    vpn_pi.Common.Maps.get vpn_pi.Common.is_space vpn_pi.Common.trim_start vpn_pi.Json.decimal
    vpn_pi.Json.member vpn_pi.Json.number_text
stored = refl

report_route-attributed_example :
    (b : Json) × (r : EventReport) × (name : Str) × (read_json parse_text request ≡ ok b)
    × (parse_report b ≡ ok r)
    × (verify_report toy r ≡ true)
    × IsKnown (lit "self") (lit "polaris") book r.node name
    × (row_of toy report (lit "dave") 9 ∷ [] ≡ table.upsert (row_of toy r name 9) [])
report_route-attributed_example =
    report_route-attributed toy parse_text table (lit "self") (lit "polaris") book request 9 []
      (row_of toy report (lit "dave") 9 ∷ []) stored
