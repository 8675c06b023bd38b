-- ===== src/Events/Feed.antt =====
-- The feed of a collector: EventStore.list of core/events.ts, and GET /admin/events of main.ts.
use vpn_pi.Common.{ℕ, List, [], ◌∷◌, map, Str, lit, take, if◌then◌else◌}
use vpn_pi.Errors.{Thrown}
use vpn_pi.Errors.Result.{Result, ok, err}
use vpn_pi.Json.{Json, str, arr}
use vpn_pi.Canonical.{str_leb}
use vpn_pi.Daemon.{Request, Ctx, require_admin}
use vpn_pi.Node.Json.{object, items}
use vpn_pi.Events.{NodeEvents}

abbrev pub max_feed_nodes : ℕ
max_feed_nodes = 64

-- `ORDER BY at DESC`: by the reporter's text, of which equal ones may stand in either order.
unfoldable pub insert_row : NodeEvents → List NodeEvents → List NodeEvents
insert_row r [] = r ∷ []
insert_row r (q ∷ qs) =
    let rest = insert_row r qs in if str_leb q.at r.at then r ∷ q ∷ qs else q ∷ rest

unfoldable pub sort_rows : List NodeEvents → List NodeEvents
unfolding insert_row
sort_rows [] = []
sort_rows (r ∷ rs) = insert_row r (sort_rows rs)

-- `EventStore.list`, of the table's rows: the events are kept as the JSON that was stored.
unfoldable pub list_feed : (rows : List NodeEvents) → List NodeEvents
unfolding sort_rows
list_feed rows = take max_feed_nodes (sort_rows rows)

abbrev pub feed_json : NodeEvents → Json
feed_json r = object (
    (lit "node", str r.node)
    ∷ (lit "label", str r.label)
    ∷ (lit "at", str r.at)
    ∷ (lit "received", str r.received)
    ∷ (lit "events", arr r.events)
    ∷ [])

abbrev answer : Result Thrown (Unit {0}) × Ctx → Json → Result Thrown Json × Ctx
answer (ok u, ctx) v = (ok v, ctx)
answer (err e, ctx) v = (err e, ctx)

unfoldable pub events_route :
    (sha256 : Str → List ℕ)
    → Request
    → (now pushed : ℕ) → (rows : List NodeEvents) → Ctx
    → Result Thrown Json × Ctx
unfolding list_feed
events_route sha256 req now pushed rows ctx =
    answer (require_admin sha256 req now pushed ctx)
      (object ((lit "nodes", arr (items (map feed_json (list_feed rows)))) ∷ []))
