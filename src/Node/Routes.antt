-- ===== src/Node/Routes.antt =====
-- main.ts, lines 485 to 910 and 940 to 946: which route answers a request, and the status of what
-- it throws. The node keeps no registry and collects no events: those routes are `resolve_route` of
-- Registry and `report_route` of Events, and here their paths are not found or give the page.
use vpn_pi.Common.{
  ℕ, ◌+◌, ◌-◌, ◌*◌, Bool, false, not, ◌&&◌, Option, none, some, List, [], ◌∷◌, Str, lit, str_eq,
  ◌==◌, leb, length, drop, take, starts_with, if◌then◌else◌,
}
use vpn_pi.Errors.{Thrown, error_status}
use vpn_pi.Errors.Result.{Result, ok, err}
use vpn_pi.Node.State.{
  Runtime, Config, World, Http, Node, Answer, Act, plain, failed, web_page, give,
}
use vpn_pi.Node.Friending.{
  get_friends_route, token_route, receive_route, accept_route, confirm_route, add_route,
  request_route, accept_inbound_route, identity_route, delete_friend_route, revoke_inbound_route,
}
use vpn_pi.Node.Status.{health_route, gate_route, home_route}
use vpn_pi.Node.Admin.{
  admin_friends_route, delete_admin_friend_route, first_run_route, canary_route, gate_log_route,
  gate_close_route, gate_open_route, mint_route,
}
use vpn_pi.Node.Mail.{thread_route, send_route, message_inbound_route}
use vpn_pi.Node.Files.{list_route, upload_route, download_route, delete_file_route}

pub data Route : Type 0 where
  get_health get_home get_gate get_admin_friends : Route
  delete_admin_friend : (segment : Str) → Route
  get_first_run post_canary get_gate_log post_gate_close post_gate_open post_mint : Route
  get_friends post_token post_receive post_accept post_confirm post_add : Route
  post_request post_accept_inbound get_identity : Route
  delete_friend : (segment : Str) → Route
  post_revoke_inbound get_messages post_message post_message_inbound : Route
  get_files post_file : Route
  get_download : (id : ℕ) → Route
  delete_file : (id : ℕ) → Route
  get_page no_route : Route

-- `^<prefix>(.+)$` on the path of a URL, which has no line breaks.
unfoldable pub after_segment : (prefix path : Str) → Option Str
after_segment prefix path =
    if starts_with path prefix && not (drop (length prefix) path == [])
    then some (drop (length prefix) path)
    else none

abbrev is_digit : ℕ → Bool
is_digit c = leb b'0' c && leb c b'9'

-- `Number` of one or more digits, and nothing else.
unfoldable pub id_from : (acc : ℕ) → Str → Option ℕ
id_from acc [] = some acc
id_from acc (c ∷ s) =
    let rest = id_from (acc * 10 + (c - 48)) s in if is_digit c then rest else none

abbrev id_of : Str → Option ℕ
id_of [] = none
id_of (c ∷ s) = id_from 0 (c ∷ s)

-- `^<prefix>(\d+)<suffix>$`.
unfoldable pub id_between : (prefix suffix path : Str) → Option ℕ
id_between prefix suffix path =
    let rest = drop (length prefix) path in
    let size = length rest - length suffix in
    if starts_with path prefix && leb (length suffix) (length rest) && drop size rest == suffix
    then id_of (take size rest)
    else none

module _ (req : Http) where
  abbrev on : (verb path : Str) → Route → Option Route
  on verb path r = if req.http_method == verb && req.path == path then some r else none

  abbrev on_match {ℓ} : {A : Type ℓ} → (verb : Str) → Option A → (A → Route) → Option Route
  on_match verb none f = none
  on_match verb (some a) f = if req.http_method == verb then some (f a) else none

  -- The tests of `route`, in their order.
  unfoldable pub route_tests : List (Option Route)
  route_tests =
      on (lit "GET") (lit "/api/health") get_health
      ∷ on (lit "GET") (lit "/api/home") get_home
      ∷ on (lit "GET") (lit "/api/gate") get_gate
      ∷ on (lit "GET") (lit "/admin/friends") get_admin_friends
      ∷ on_match (lit "DELETE") (after_segment (lit "/admin/friends/") req.path) delete_admin_friend
      ∷ on (lit "GET") (lit "/admin/firstrun") get_first_run
      ∷ on (lit "POST") (lit "/admin/canary") post_canary
      ∷ on (lit "GET") (lit "/admin/gate/log") get_gate_log
      ∷ on (lit "POST") (lit "/admin/gate/close") post_gate_close
      ∷ on (lit "POST") (lit "/api/gate/open") post_gate_open
      ∷ on (lit "POST") (lit "/admin/canary/mint") post_mint
      ∷ on (lit "GET") (lit "/api/friends") get_friends
      ∷ on (lit "POST") (lit "/api/friends/token") post_token
      ∷ on (lit "POST") (lit "/api/friends/receive") post_receive
      ∷ on (lit "POST") (lit "/api/friends/accept") post_accept
      ∷ on (lit "POST") (lit "/api/friends/confirm") post_confirm
      ∷ on (lit "POST") (lit "/api/friends/add") post_add
      ∷ on (lit "POST") (lit "/api/friends/request") post_request
      ∷ on (lit "POST") (lit "/api/friends/accept-inbound") post_accept_inbound
      ∷ on (lit "GET") (lit "/api/identity") get_identity
      ∷ on_match (lit "DELETE") (after_segment (lit "/api/friends/") req.path) delete_friend
      ∷ on (lit "POST") (lit "/api/friends/revoke-inbound") post_revoke_inbound
      ∷ on (lit "GET") (lit "/api/messages") get_messages
      ∷ on (lit "POST") (lit "/api/messages") post_message
      ∷ on (lit "POST") (lit "/api/messages/inbound") post_message_inbound
      ∷ on (lit "GET") (lit "/api/files") get_files
      ∷ on (lit "POST") (lit "/api/files") post_file
      ∷ on_match (lit "GET") (id_between (lit "/api/files/") (lit "/download") req.path)
          get_download
      ∷ on_match (lit "DELETE") (id_between (lit "/api/files/") [] req.path) delete_file
      ∷ on_match (lit "GET") (if starts_with req.path (lit "/api/") then none else some req.path)
          (λ s. get_page)
      ∷ []

unfoldable pub first_route : List (Option Route) → Route
first_route [] = no_route
first_route (none ∷ rs) = first_route rs
first_route (some r ∷ rs) = r

unfoldable pub route_of : Http → Route
unfolding route_tests first_route after_segment id_from id_between
route_of req = first_route (route_tests req)

module _ (rt : Runtime) (cfg : Config) (w : World) (req : Http) where
  -- The version is that of the source; the node has no event store.
  unfoldable pub handle : Route → Act Answer
  handle get_health = health_route rt cfg w req (lit "0.0.7") false
  handle get_home = home_route rt cfg w req
  handle get_gate = gate_route rt cfg w req
  handle get_admin_friends = admin_friends_route rt cfg w req
  handle (delete_admin_friend s) = delete_admin_friend_route rt cfg w req s
  handle get_first_run = first_run_route rt cfg w req
  handle post_canary = canary_route rt cfg w req
  handle get_gate_log = gate_log_route rt cfg w req
  handle post_gate_close = gate_close_route rt cfg w req
  handle post_gate_open = gate_open_route rt cfg w req
  handle post_mint = mint_route rt cfg w req
  handle get_friends = get_friends_route rt cfg w req
  handle post_token = token_route rt cfg w req
  handle post_receive = receive_route rt cfg w req
  handle post_accept = accept_route rt cfg w req
  handle post_confirm = confirm_route rt cfg w req
  handle post_add = add_route rt cfg w req
  handle post_request = request_route rt cfg w req
  handle post_accept_inbound = accept_inbound_route rt cfg w req
  handle get_identity = identity_route rt cfg w req
  handle (delete_friend s) = delete_friend_route rt cfg w req s
  handle post_revoke_inbound = revoke_inbound_route rt cfg w req
  handle get_messages = thread_route rt cfg w req
  handle post_message = send_route rt cfg w req
  handle post_message_inbound = message_inbound_route rt cfg w req
  handle get_files = list_route rt cfg w req
  handle post_file = upload_route rt cfg w req
  handle (get_download id) = download_route rt cfg w req id
  handle (delete_file id) = delete_file_route rt cfg w req id
  handle get_page = give web_page
  handle no_route = give (plain 404 (lit "not found"))

  abbrev pub answer_of : Result Thrown Answer → Answer
  answer_of (ok a) = a
  answer_of (err e) = failed (error_status e)

  -- `fetch` of the server; an error's message is left out.
  unfoldable pub serve : Node → Answer × Node
  serve n = let (r, n') = handle (route_of req) n in (answer_of r, n')
