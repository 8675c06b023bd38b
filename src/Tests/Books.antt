-- ===== src/Tests/Books.antt =====
-- Two nodes, alice and bob, that become friends, and one that leaves.
use vpn_pi.Common.{
  ℕ, ◌≤◌, ◌≡◌, ◌≢◌, refl, Bool, true, false, Option, none, some, List, [], ◌∷◌, ◌++◌, Str, lit,
  str_eq, str_beq, ◌+◌, ◌*◌, contains, get_or, arith,
}
use vpn_pi.Common.Maps
use vpn_pi.Errors.{Thrown}
use vpn_pi.Errors.Result.{Result, ok, err}
use vpn_pi.Codec.{to_b64}
use vpn_pi.Identity.{Identity, IsKeyed}
use vpn_pi.Canonical.{canonicalize}
use vpn_pi.Friends.Wire.{
  PeerPub, FriendToken, FriendRevoke, peer_pub_of, make_token, make_accept, token_signable,
  revoke_signable, sign_json,
}
use vpn_pi.Friends.Book.{
  FriendBook, FriendRecord, FriendState, Pending, new_book, self_ed, issue_token, receive, accept,
  confirm, receive_revoke, friend,
}
use vpn_pi.Friends.History
use vpn_pi.Friends.History.{
  Call, receives, accepts, revokes, run, friend-run-IsVouched, receive_after_accept,
  confirm_after_confirm,
}
use vpn_pi.Friends.Invariant.{IsVouched}
use vpn_pi.Friends.Handshake.{handshake, handshake_mutual, friend_of}
use vpn_pi.Friends.Revocation.{IsRevokedBy, receive_revoke-IsRevokedBy}
use vpn_pi.Friends.Binding.{IsText, token_signable_inj}
use vpn_pi.Tests.Toy.{toy, toy-IsLawful}

abbrev pub node : ℕ → Identity
node n = record {
  seed = n ∷ 1 ∷ [];
  ed_public = n ∷ 1 ∷ [];
  ed_secret = n ∷ 1 ∷ [];
  x_public = n ∷ 2 ∷ [];
  x_private = n ∷ 2 ∷ [];
}

pub node-IsKeyed : (n : ℕ) → IsKeyed toy (node n)
node-IsKeyed n = record { public = refl; secret = refl; box = refl }

abbrev ok_or {ℓ} : {A : Type ℓ} → A → Result Thrown A → A
ok_or d (ok a) = a
ok_or d (err e) = d

abbrev pub alice_book : FriendBook
alice_book = new_book (node 7) (lit "alice") (lit "10.42.0.1")

abbrev pub bob_book : FriendBook
bob_book = new_book (node 8) (lit "bob") (lit "10.42.0.2")

keys-differ : self_ed toy alice_book ≢ self_ed toy bob_book
unfolding new_book to_b64
keys-differ e = absurd (cc)

handshake_mutual_example :
    (giver' receiver' : FriendBook) × (handshake toy 3600
        (9 ∷ [])
        0
        1000
        1001
        1002
        1003
        alice_book
        bob_book
      ≡ ok (giver', receiver'))
    × (friend (self_ed toy bob_book) giver'
        ≡ some (friend_of toy bob_book (to_b64 toy (9 ∷ [])) 1003))
    × (friend (self_ed toy alice_book) receiver'
        ≡ some (friend_of toy alice_book (to_b64 toy (9 ∷ [])) 1002))
unfolding new_book contains
handshake_mutual_example =
    handshake_mutual toy toy-IsLawful 3600 (9 ∷ []) 0 1000 1001 1002 1003 alice_book bob_book
      (node-IsKeyed 7) (node-IsKeyed 8) keys-differ refl refl (omega arith)
      (omega arith, omega arith, omega arith)

abbrev no_token : FriendToken
no_token = record {
  v = 0;
  sender = record { ed25519 = []; x25519 = []; label = []; wg0 = [] };
  nonce = [];
  issued = [];
  expires = [];
  sig = [];
}

abbrev pub token : (nonce : ℕ) → FriendToken
token nonce =
    ok_or no_token (make_token toy (node 7) (lit "alice") (lit "10.42.0.1") 3600 (nonce ∷ []) 1000)

abbrev pub alice : FriendRecord
alice = record {
  peer = peer_pub_of toy (node 7) (lit "alice") (lit "10.42.0.1");
  state = FriendState.friends;
  nonce = to_b64 toy (5 ∷ []);
  since = 1002 ∷ [];
}

abbrev pub alice_key : Str
alice_key = to_b64 toy (7 ∷ 1 ∷ [])

abbrev meeting : List Call
meeting = receives (token 5) 1001 ∷ accepts alice_key 0 1002 ∷ []

alice-met :
    friend alice_key (run toy (new_book (node 8) (lit "bob") (lit "10.42.0.2")) meeting)
    ≡ some alice
unfolding friend Maps.get run History.step accept receive vpn_pi.Friends.Wire.verify_token
    make_token sign_json canonicalize token_signable vpn_pi.Friends.Wire.peer_pub_json
    vpn_pi.Friends.Wire.verify_json vpn_pi.Codec.from_b64 vpn_pi.Common.trim to_b64
    vpn_pi.Canonical.encode_string vpn_pi.Canonical.escape vpn_pi.Canonical.escape_all
    vpn_pi.Canonical.hex4 vpn_pi.Canonical.str_leb vpn_pi.Common.add contains Maps.delete Maps.set
    vpn_pi.Common.is_space str_beq vpn_pi.Common.trim_start vpn_pi.Friends.Wire.accept_json
    vpn_pi.Friends.Wire.accept_signable vpn_pi.Friends.Wire.is_past make_accept peer_pub_of
    vpn_pi.Json.decimal vpn_pi.Json.number_text new_book vpn_pi.Tests.Toy.program
    vpn_pi.Tests.Toy.drop_last
alice-met = refl

friend-run-IsVouched_example : (alice.peer.ed25519 ≡ alice_key) × IsVouched toy alice
friend-run-IsVouched_example =
    friend-run-IsVouched toy (node 8) (lit "bob") (lit "10.42.0.2") meeting alice_key alice
      alice-met

-- Bob, after he received alice's token.
abbrev bob_asked : FriendBook
bob_asked = (ok_or (no_token.sender, bob_book) (receive toy (token 5) 1001 bob_book)).1

abbrev bob_answer : Str × FriendBook
bob_answer = ok_or ([], bob_book) (accept toy alice_key 0 1002 bob_asked)

abbrev request : Pending
request = record { token = token 5; received = 1001 ∷ [] }

bob-asked : Maps.get alice_key bob_asked.pending ≡ some request
unfolding friend Maps.get run History.step accept receive vpn_pi.Friends.Wire.verify_token
    make_token sign_json canonicalize token_signable vpn_pi.Friends.Wire.peer_pub_json
    vpn_pi.Friends.Wire.verify_json vpn_pi.Codec.from_b64 vpn_pi.Common.trim to_b64
    vpn_pi.Canonical.encode_string vpn_pi.Canonical.escape vpn_pi.Canonical.escape_all
    vpn_pi.Canonical.hex4 vpn_pi.Canonical.str_leb vpn_pi.Common.add contains Maps.delete Maps.set
    vpn_pi.Common.is_space str_beq vpn_pi.Common.trim_start vpn_pi.Friends.Wire.accept_json
    vpn_pi.Friends.Wire.accept_signable vpn_pi.Friends.Wire.is_past make_accept peer_pub_of
    vpn_pi.Json.decimal vpn_pi.Json.number_text new_book vpn_pi.Tests.Toy.program
    vpn_pi.Tests.Toy.drop_last confirm vpn_pi.Friends.Wire.open_accept
    vpn_pi.Friends.Wire.accept_of_json vpn_pi.Tests.Toy.execute receive_revoke
    vpn_pi.Friends.Book.is_stale issue_token vpn_pi.Common.starts_with vpn_pi.Json.property
    vpn_pi.Json.as_text revoke_signable vpn_pi.Tests.Toy.units
bob-asked = refl

bob-answered : accept toy alice_key 0 1002 bob_asked ≡ ok (bob_answer.0, bob_answer.1)
unfolding friend Maps.get run History.step accept receive vpn_pi.Friends.Wire.verify_token
    make_token sign_json canonicalize token_signable vpn_pi.Friends.Wire.peer_pub_json
    vpn_pi.Friends.Wire.verify_json vpn_pi.Codec.from_b64 vpn_pi.Common.trim to_b64
    vpn_pi.Canonical.encode_string vpn_pi.Canonical.escape vpn_pi.Canonical.escape_all
    vpn_pi.Canonical.hex4 vpn_pi.Canonical.str_leb vpn_pi.Common.add contains Maps.delete Maps.set
    vpn_pi.Common.is_space str_beq vpn_pi.Common.trim_start vpn_pi.Friends.Wire.accept_json
    vpn_pi.Friends.Wire.accept_signable vpn_pi.Friends.Wire.is_past make_accept peer_pub_of
    vpn_pi.Json.decimal vpn_pi.Json.number_text new_book vpn_pi.Tests.Toy.program
    vpn_pi.Tests.Toy.drop_last confirm vpn_pi.Friends.Wire.open_accept
    vpn_pi.Friends.Wire.accept_of_json vpn_pi.Tests.Toy.execute receive_revoke
    vpn_pi.Friends.Book.is_stale issue_token vpn_pi.Common.starts_with vpn_pi.Json.property
    vpn_pi.Json.as_text revoke_signable vpn_pi.Tests.Toy.units
bob-answered = refl

receive_after_accept_example :
    receive toy (token 5) 1004 (run toy bob_answer.1 (revokes alice_key ∷ []))
    ≢ ok ((token 5).sender, bob_asked)
receive_after_accept_example =
    receive_after_accept toy alice_key bob_answer.0 0 1002 1004 bob_asked bob_answer.1 bob_asked
      request (token 5) (token 5).sender (revokes alice_key ∷ []) bob-asked bob-answered refl

-- Alice offers twice, and bob answers both offers.
abbrev offers : FriendBook
offers =
    (ok_or (no_token, alice_book)
      (issue_token toy 3600 (6 ∷ []) 1000
        (ok_or (no_token, alice_book) (issue_token toy 3600 (5 ∷ []) 1000 alice_book)).1)).1

abbrev reply_to : ℕ → Str
reply_to nonce =
    ok_or [] (make_accept toy (node 8) (lit "bob") (lit "10.42.0.2") (token nonce) 0 1002)

abbrev first : FriendRecord × FriendBook
first = ok_or (alice, offers) (confirm toy (reply_to 5) 1003 offers)

abbrev second : FriendRecord × FriendBook
second = ok_or (alice, offers) (confirm toy (reply_to 6) 1004 (run toy first.1 []))

first-confirmed : confirm toy (reply_to 5) 1003 offers ≡ ok (first.0, first.1)
unfolding friend Maps.get run History.step accept receive vpn_pi.Friends.Wire.verify_token
    make_token sign_json canonicalize token_signable vpn_pi.Friends.Wire.peer_pub_json
    vpn_pi.Friends.Wire.verify_json vpn_pi.Codec.from_b64 vpn_pi.Common.trim to_b64
    vpn_pi.Canonical.encode_string vpn_pi.Canonical.escape vpn_pi.Canonical.escape_all
    vpn_pi.Canonical.hex4 vpn_pi.Canonical.str_leb vpn_pi.Common.add contains Maps.delete Maps.set
    vpn_pi.Common.is_space str_beq vpn_pi.Common.trim_start vpn_pi.Friends.Wire.accept_json
    vpn_pi.Friends.Wire.accept_signable vpn_pi.Friends.Wire.is_past make_accept peer_pub_of
    vpn_pi.Json.decimal vpn_pi.Json.number_text new_book vpn_pi.Tests.Toy.program
    vpn_pi.Tests.Toy.drop_last confirm vpn_pi.Friends.Wire.open_accept
    vpn_pi.Friends.Wire.accept_of_json vpn_pi.Tests.Toy.execute receive_revoke
    vpn_pi.Friends.Book.is_stale issue_token vpn_pi.Common.starts_with vpn_pi.Json.property
    vpn_pi.Json.as_text revoke_signable vpn_pi.Tests.Toy.units
first-confirmed = refl

second-confirmed : confirm toy (reply_to 6) 1004 (run toy first.1 []) ≡ ok (second.0, second.1)
unfolding friend Maps.get run History.step accept receive vpn_pi.Friends.Wire.verify_token
    make_token sign_json canonicalize token_signable vpn_pi.Friends.Wire.peer_pub_json
    vpn_pi.Friends.Wire.verify_json vpn_pi.Codec.from_b64 vpn_pi.Common.trim to_b64
    vpn_pi.Canonical.encode_string vpn_pi.Canonical.escape vpn_pi.Canonical.escape_all
    vpn_pi.Canonical.hex4 vpn_pi.Canonical.str_leb vpn_pi.Common.add contains Maps.delete Maps.set
    vpn_pi.Common.is_space str_beq vpn_pi.Common.trim_start vpn_pi.Friends.Wire.accept_json
    vpn_pi.Friends.Wire.accept_signable vpn_pi.Friends.Wire.is_past make_accept peer_pub_of
    vpn_pi.Json.decimal vpn_pi.Json.number_text new_book vpn_pi.Tests.Toy.program
    vpn_pi.Tests.Toy.drop_last confirm vpn_pi.Friends.Wire.open_accept
    vpn_pi.Friends.Wire.accept_of_json vpn_pi.Tests.Toy.execute receive_revoke
    vpn_pi.Friends.Book.is_stale issue_token vpn_pi.Common.starts_with vpn_pi.Json.property
    vpn_pi.Json.as_text revoke_signable vpn_pi.Tests.Toy.units
second-confirmed = refl

-- Alice leaves bob.
abbrev farewell : (sig : Str) → FriendRevoke
farewell sig = record {
  v = 1;
  sender = alice_key;
  target = to_b64 toy (8 ∷ 1 ∷ []);
  nonce = to_b64 toy (4 ∷ []);
  at = 2000 ∷ [];
  sig = sig;
}

abbrev notice : FriendRevoke
notice = farewell (ok_or [] (sign_json toy (revoke_signable (farewell [])) (7 ∷ 1 ∷ [])))

abbrev bob_left : FriendRecord × FriendBook
bob_left = ok_or (alice, bob_book) (receive_revoke toy notice bob_answer.1)

left : receive_revoke toy notice bob_answer.1 ≡ ok (bob_left.0, bob_left.1)
unfolding friend Maps.get run History.step accept receive vpn_pi.Friends.Wire.verify_token
    make_token sign_json canonicalize token_signable vpn_pi.Friends.Wire.peer_pub_json
    vpn_pi.Friends.Wire.verify_json vpn_pi.Codec.from_b64 vpn_pi.Common.trim to_b64
    vpn_pi.Canonical.encode_string vpn_pi.Canonical.escape vpn_pi.Canonical.escape_all
    vpn_pi.Canonical.hex4 vpn_pi.Canonical.str_leb vpn_pi.Common.add contains Maps.delete Maps.set
    vpn_pi.Common.is_space str_beq vpn_pi.Common.trim_start vpn_pi.Friends.Wire.accept_json
    vpn_pi.Friends.Wire.accept_signable vpn_pi.Friends.Wire.is_past make_accept peer_pub_of
    vpn_pi.Json.decimal vpn_pi.Json.number_text new_book vpn_pi.Tests.Toy.program
    vpn_pi.Tests.Toy.drop_last confirm vpn_pi.Friends.Wire.open_accept
    vpn_pi.Friends.Wire.accept_of_json vpn_pi.Tests.Toy.execute receive_revoke
    vpn_pi.Friends.Book.is_stale issue_token vpn_pi.Common.starts_with vpn_pi.Json.property
    vpn_pi.Json.as_text revoke_signable vpn_pi.Tests.Toy.units
left = refl

receive_revoke-IsRevokedBy_example : IsRevokedBy toy notice bob_answer.1 bob_left.0 bob_left.1
receive_revoke-IsRevokedBy_example =
    receive_revoke-IsRevokedBy toy notice bob_answer.1 bob_left.0 bob_left.1 left

abbrev signed : Str → FriendToken
signed sig = record {
  v = 1;
  sender = record {
    ed25519 = lit "a2V5";
    x25519 = lit "Ym94";
    label = lit "alice";
    wg0 = lit "10.42.0.1";
  };
  nonce = lit "bm9uY2U=";
  issued = lit "2026-01-01T00:00:00.000Z";
  expires = lit "2026-01-02T00:00:00.000Z";
  sig = sig;
}

signed-IsText : (sig : Str) → IsText (signed sig)
signed-IsText sig = record {
  ed25519 = omega arith;
  x25519 = omega arith;
  label = omega arith;
  wg0 = omega arith;
  nonce = omega arith;
  issued = omega arith;
  expires = omega arith;
}

token_signable_inj_example :
    ((signed []).sender ≡ (signed (lit "c2ln")).sender)
    × ((signed []).nonce ≡ (signed (lit "c2ln")).nonce)
    × ((signed []).issued ≡ (signed (lit "c2ln")).issued)
    × ((signed []).expires ≡ (signed (lit "c2ln")).expires)
unfolding token_signable
token_signable_inj_example =
    token_signable_inj (signed []) (signed (lit "c2ln")) (signed-IsText [])
      (signed-IsText (lit "c2ln")) refl
