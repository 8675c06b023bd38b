-- ===== src/Tests/Served.antt =====
-- A node that is asked for a friendship, and its operator, visitors and gate.
use vpn_pi.Common.{
  trim, ℕ, ◌≤◌, ◌≡◌, refl, Bool, true, false, inr, Option, none, some, List, [], ◌∷◌, Str, lit,
  str_eq, str_beq, get_or, arith,
}
use vpn_pi.Common.Maps
use vpn_pi.Json.{Json, str, obj, field, end}
use vpn_pi.Registry.{code_not_found}
use vpn_pi.Friends.Wire.{FriendToken, FriendRevoke}
use vpn_pi.Friends.Invariant.{IsVouched}
use vpn_pi.Friends.Book.{FriendBook, FriendRecord, friend, to_json, new_book}
use vpn_pi.Gate.{new_gate, open_request}
use vpn_pi.Gate
use vpn_pi.Share.{new_share}
use vpn_pi.Daemon.{is_operator, Request}
use vpn_pi.Boot.{DataDir, provision_admin_token, parse_args}
use vpn_pi.Boot.Restart.{started}
use vpn_pi.Errors.Result.{ok}
use vpn_pi.Node.State.{Runtime, Config, Node, World, Http, saved}
use vpn_pi.Node.Json.{token_json}
use vpn_pi.Node.Routes.{route_of, serve}
use vpn_pi.Node.Run.{Event, serves, model_answers, lock_frees, marker_goes, run}
use vpn_pi.Node.Histories.{Synced, run-Synced, node_friend-IsVouched}
use vpn_pi.Node.Strangers.{IsUntouched, is_inbound, stranger-IsUntouched}
use vpn_pi.Node.FirstRun.{count_reveals, count_reveals-le}
use vpn_pi.Node.Nonces.{asked, denial, approval, disk_time, nonce_on_disk}
use vpn_pi.Tests.Toy.{toy, program}
use vpn_pi.Tests.Books.{node, bob_book, token, alice, alice_key}
use vpn_pi.Tests.Gates.{canary}

-- A text is the program of its value, and a path is encoded as it is.
abbrev pub runtime : Runtime
runtime = record {
  platform = toy;
  sha256 = λ s. s;
  parse_text = toy.parse_json;
  decode_uri = λ s. some s;
  to_upper = λ s. s;
  utf8_encode = λ s. s;
  utf8_decode = λ b. b;
  to_whole = λ s. none;
  locale_leb = λ s t. true;
}

abbrev pub config : Config
config = record {
  wg_iface = lit "wg0";
  peer_port = 8787;
  gate_status_url = [];
  gate_status_label = [];
  registry_url = [];
  canary_keyword = lit "open";
  canary_freshness_s = 300;
  admin_keys = λ s. none;
  admin_app = none;
  mock_admin = none;
}

abbrev pub bob : Node
bob = record {
  ctx = record {
    credentials = record { mock = false; op_token = lit "op"; admin_token = lit "admin" };
    self_ed = lit "bob";
    book = bob_book;
    auth_limiter = record { max = 10; window_ms = 300000; hits = [] };
  };
  messages = record { logs = []; seen = [] };
  gate = new_gate 600 3600;
  share = new_share 1000;
  first_run = true;
  revealing = 0;
  writes = 3;
  disk = record {
    books = to_json bob_book;
    messages = record { logs = []; seen = [] };
    nonces = [];
  };
  sent = [];
}

abbrev pub at : ℕ → World
at now = record {
  now = now;
  pushed = now;
  random = 3 ∷ [];
  entropy = 0;
  uuid = lit "u";
  delivers = true;
  registry = λ code. code_not_found;
  gate_status = none;
  forwarded = none;
  wg_output = none;
  fail2ban_output = none;
  daemon_output = none;
}

abbrev pub ask : (verb path text op_token : Str) → Http
ask verb path text op_token = record {
  http_method = verb;
  path = path;
  content_length = 0;
  text = text;
  peer_query = none;
  upload = none;
  guard = record { ip = some (lit "10.42.0.9"); op_token = op_token; admin_token = [] };
}

abbrev asks : Event
asks = serves (at 1001) (
    ask (lit "POST") (lit "/api/friends/request")
      (program (obj (field (lit "token") (token_json (token 5)) end))) [])

abbrev accepts : Event
accepts = serves (at 1002) (
    ask (lit "POST") (lit "/api/friends/accept")
      (program (obj (field (lit "giver") (str alice_key) end))) (lit "op"))

abbrev visit : Http
visit = ask (lit "GET") (lit "/admin/firstrun") [] []

abbrev meeting : List Event
meeting = asks ∷ accepts ∷ []

abbrev day : List Event
day = asks ∷ accepts ∷ serves (at 1003) visit ∷ serves (at 1004) visit ∷ []

run-Synced_example : Synced (run runtime config bob day)
run-Synced_example =
    run-Synced runtime config bob day (omega arith) (tt, (tt, (tt, (tt, tt)))) (inr refl)

met : friend alice_key (run runtime config bob meeting).ctx.book ≡ some alice
unfolding run vpn_pi.Node.Run.step serve vpn_pi.Node.Routes.handle route_of
    vpn_pi.Node.Routes.route_tests vpn_pi.Node.Routes.first_route vpn_pi.Node.Routes.after_segment
    vpn_pi.Node.Routes.id_between vpn_pi.Node.Routes.id_from str_beq vpn_pi.Common.starts_with
    vpn_pi.Node.State.◌>>=◌ vpn_pi.Node.State.reading vpn_pi.Node.State.pure vpn_pi.Node.State.give
    vpn_pi.Node.State.on_book vpn_pi.Node.State.persist vpn_pi.Node.Friending.request_route
    vpn_pi.Node.Friending.accept_route vpn_pi.Node.State.◌>>◌ vpn_pi.Node.Friending.operator_only
    vpn_pi.Node.State.on_ctx vpn_pi.Daemon.require_operator vpn_pi.Daemon.is_operator
    vpn_pi.Auth.manage_ok vpn_pi.Auth.operator_ok vpn_pi.Auth.token_ok vpn_pi.RateLimit.locked
    vpn_pi.RateLimit.recent vpn_pi.RateLimit.reset vpn_pi.Common.filterb Maps.get
    vpn_pi.Node.Bodies.read_json vpn_pi.Node.Bodies.token_of_json vpn_pi.Friends.Wire.peer_of_json
    vpn_pi.Json.property vpn_pi.Json.member vpn_pi.Json.as_text vpn_pi.Json.text_or_undefined
    vpn_pi.Json.text_of vpn_pi.Node.State.deliver_if_any vpn_pi.Node.State.deliver friend
    vpn_pi.Node.Json.token_json to_json Gate.to_json vpn_pi.Friends.Wire.verify_token
    vpn_pi.Friends.Wire.make_token vpn_pi.Friends.Wire.sign_json vpn_pi.Canonical.canonicalize
    vpn_pi.Friends.Wire.token_signable vpn_pi.Friends.Wire.peer_pub_json
    vpn_pi.Friends.Wire.verify_json vpn_pi.Codec.from_b64 vpn_pi.Common.trim vpn_pi.Codec.to_b64
    vpn_pi.Canonical.encode_string vpn_pi.Canonical.escape vpn_pi.Canonical.escape_all
    vpn_pi.Canonical.hex4 vpn_pi.Canonical.str_leb vpn_pi.Common.add vpn_pi.Common.contains
    Maps.delete Maps.set vpn_pi.Common.is_space vpn_pi.Common.trim_start
    vpn_pi.Friends.Wire.accept_json vpn_pi.Friends.Wire.accept_signable vpn_pi.Friends.Wire.is_past
    vpn_pi.Friends.Wire.make_accept vpn_pi.Friends.Wire.peer_pub_of vpn_pi.Json.decimal
    vpn_pi.Json.number_text new_book program vpn_pi.Tests.Toy.drop_last vpn_pi.Friends.Book.receive
    vpn_pi.Friends.Book.accept vpn_pi.Tests.Toy.execute vpn_pi.Tests.Toy.units vpn_pi.Auth.loopback
met = refl

node_friend-IsVouched_example : (alice.peer.ed25519 ≡ alice_key) × IsVouched toy alice
node_friend-IsVouched_example =
    node_friend-IsVouched runtime config bob (node 8) (lit "bob") (lit "10.42.0.2") meeting
      alice_key alice refl met

abbrev visitor : Http
visitor = ask (lit "POST") (lit "/api/friends/token") [] (lit "guess")

stranger-IsUntouched_example : IsUntouched bob (serve runtime config (at 5) visitor bob).1
unfolding is_operator vpn_pi.Auth.manage_ok vpn_pi.Auth.operator_ok vpn_pi.Common.contains
    vpn_pi.Auth.loopback str_beq vpn_pi.Auth.token_ok is_inbound route_of vpn_pi.Common.starts_with
stranger-IsUntouched_example = stranger-IsUntouched runtime config (at 5) visitor bob refl refl

-- Two visitors whose checks both come before a removal.
abbrev overlapping : List Event
overlapping =
    serves (at 1003) visit
    ∷ serves (at 1003) visit
    ∷ marker_goes true
    ∷ marker_goes true
    ∷ serves (at 1004) visit
    ∷ []

count_reveals-le_example :
    count_reveals runtime config
      (record bob { revealing = 1 })
      (marker_goes true ∷ serves (at 1004) visit ∷ marker_goes true ∷ [])
    ≤ 1
count_reveals-le_example =
    count_reveals-le runtime config (record bob { revealing = 1 })
      (serves (at 1004) visit ∷ marker_goes true ∷ []) (omega arith)

revealed_twice : count_reveals runtime config bob overlapping ≡ 2
unfolding count_reveals vpn_pi.Node.FirstRun.reveals route_of str_beq vpn_pi.Common.starts_with
    serve vpn_pi.Node.Routes.handle vpn_pi.Node.Admin.first_run_route vpn_pi.Json.as_text
    vpn_pi.Json.property vpn_pi.Node.Run.step vpn_pi.Node.Admin.revealed
    vpn_pi.Node.Admin.unlink_marker
revealed_twice = refl

admitted : (open_request canary 1000000 bob.gate).1 ≡ true
unfolding open_request Maps.get vpn_pi.Common.filterb new_gate
admitted = refl

nonce_on_disk_example :
    (disk_time runtime config bob canary 1000000 1000100
        (lit "r")
        (denial runtime config bob canary 1000000 1000100 (lit "r"))
      ≡ some 1000000)
    × (disk_time runtime config bob canary 1000000 1000100
          (lit "r")
          (approval runtime config bob canary 1000000 1000100 (lit "r") true)
        ≡ some 1000000)
    × ((run runtime config
          (asked canary 1000000 bob)
          (approval runtime config bob canary 1000000 1000100 (lit "r") false)).disk
        ≡ bob.disk)
    × (Maps.get canary.nonce
          (run runtime config
            (asked canary 1000000 bob)
            (approval runtime config bob canary 1000000 1000100 (lit "r") false)).gate.consumed
        ≡ some 1000000)
unfolding new_gate
nonce_on_disk_example =
    nonce_on_disk runtime config bob canary 1000000 1000100 (lit "r") refl (omega arith)
      (refl, refl, refl) admitted

-- A data directory without a token, and two later starts.
abbrev empty_dir : DataDir
empty_dir = record { admin_token = none; first_run = false }

trimmed : trim (lit "dG9rZW4") ≡ lit "dG9rZW4"
unfolding trim
trimmed = refl

-- A token from the environment is revealed if the marker of an earlier first run is still there.
env_token_used :
    (provision_admin_token false (lit "own secret") [] (started (lit "dG9rZW4") empty_dir).1).0
    ≡ lit "own secret"
unfolding provision_admin_token str_beq
env_token_used = refl

marker_kept :
    (provision_admin_token false
      (lit "own secret")
      []
      (started (lit "dG9rZW4") empty_dir).1).1.first_run
    ≡ true
unfolding provision_admin_token str_beq
marker_kept = refl

arguments :
    parse_args runtime.to_whole none (lit "--mock" ∷ lit "--host" ∷ lit "10.42.0.1" ∷ [])
    ≡ ok (record { mock = true; host = lit "10.42.0.1"; port = 8787 })
unfolding parse_args vpn_pi.Boot.num_config vpn_pi.Boot.parse_from str_beq
arguments = refl
