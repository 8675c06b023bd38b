-- ===== src/Friends/Handshake.antt =====
-- The whole handshake of core/friends.ts between two nodes.
use vpn_pi.Common.{
  ℕ, ◌+◌, ◌*◌, ◌≤◌, ◌≡◌, ◌≢◌, refl, ap, true, false, Option, some, [], Str, nat_eq, str_eq,
  str_beq_iff, str_beq, contains, add, arith,
}
use vpn_pi.Common.Maps
use vpn_pi.Errors.{Thrown, other_error}
use vpn_pi.Errors.Result.{Result, ok, ◌>>=◌, bind-ok, or_throw-ok}
use vpn_pi.Json.{Json, property, as_text}
use vpn_pi.Canonical.{canonicalize}
use vpn_pi.Platform.{Bytes, Platform, IsLawful, max_date_ms}
use vpn_pi.Codec.{to_b64, from_b64, from_b64-to_b64}
use vpn_pi.Identity.{Identity, IsKeyed}
use vpn_pi.Friends.Wire.{
  PeerPub, FriendToken, FriendAccept, peer_pub_json, token_signable, accept_signable, accept_json,
  accept_of_json, peer_pub_of, sign_json, verify_json, is_past, make_token, verify_token,
  make_accept, open_accept,
}
use vpn_pi.Friends.Book.{
  FriendState, FriendRecord, Pending, FriendBook, self_ed, issue_token, receive, befriend, accept,
  confirmed, confirm, friend,
}

token_text : (t : FriendToken) → (text : Str) × (canonicalize (token_signable t) ≡ some text)
unfolding token_signable peer_pub_json canonicalize
token_text t = (_, refl)

accept_text : (a : FriendAccept) → (text : Str) × (canonicalize (accept_signable a) ≡ some text)
unfolding accept_signable peer_pub_json canonicalize
accept_text a = (_, refl)

module _ (p : Platform) (law : IsLawful p) (id : Identity) (keyed : IsKeyed p id) where
  -- A signature that was made with the node's key verifies under it.
  verify-sign :
      (v : Json) (text : Str)
      → canonicalize v ≡ some text
      → verify_json p v (to_b64 p (p.sign text id.ed_secret)) (to_b64 p id.ed_public) ≡ ok true
  unfolding verify_json
  verify-sign v text e =
      let valid : p.verify (p.sign text id.ed_secret) text id.ed_public ≡ some true =
        rw (keyed.secret, keyed.public) (law.signature id.seed text) in
      ground (
        arith,
        from_b64-to_b64 p law (p.sign text id.ed_secret),
        from_b64-to_b64 p law id.ed_public,
      )

  pub verify_json-sign_json :
      (v : Json) (sig : Str)
      → sign_json p v id.ed_secret ≡ ok sig
      → verify_json p v sig (to_b64 p id.ed_public) ≡ ok true
  unfolding sign_json
  verify_json-sign_json v sig h =
      let (text, read, made) = or_throw-ok (canonicalize v) other_error _ h in
      let same : to_b64 p (p.sign text id.ed_secret) ≡ sig = cc in
      rw⁻¹ same (verify-sign v text read)

  is_past_iso : (t now : ℕ) → now ≤ t → is_past p (p.iso_date t) now ≡ false
  unfolding is_past
  is_past_iso t now h = rw (law.date t, is_past) (ground arith)

  abbrev token_body :
      (label wg0 : Str) → (ttl_seconds : ℕ) → (random : Bytes) → (now : ℕ) → Str → FriendToken
  token_body label wg0 ttl_seconds random now sig = record {
    v = 1;
    sender = peer_pub_of p id label wg0;
    nonce = to_b64 p random;
    issued = p.iso_date now;
    expires = p.iso_date (now + ttl_seconds * 1000);
    sig = sig;
  }

  make_token-ok :
      (label wg0 : Str) (ttl_seconds : ℕ) (random : Bytes) (now : ℕ)
      → now + ttl_seconds * 1000 ≤ max_date_ms
      → (sig : Str) × (make_token p id label wg0 ttl_seconds random now
          ≡ ok (token_body label wg0 ttl_seconds random now sig))
        × ((later : ℕ)
            → later ≤ now + ttl_seconds * 1000
            → verify_token p (token_body label wg0 ttl_seconds random now sig) later
              ≡ ok (peer_pub_of p id label wg0))
  unfolding make_token sign_json verify_token peer_pub_of
  make_token-ok label wg0 ttl_seconds random now dated =
      let (text, e) = token_text (token_body label wg0 ttl_seconds random now []) in
      let sig = to_b64 p (p.sign text id.ed_secret) in
      let signed =
        verify-sign (token_signable (token_body label wg0 ttl_seconds random now [])) text e in
      let signed' : verify_json p (token_signable (token_body label wg0 ttl_seconds random now sig))
            sig (to_b64 p id.ed_public)
          ≡ ok true =
        unfold token_signable in signed in
      (
        sig,
        ground (arith, dated),
        λ later h. ground (arith, signed', is_past_iso (now + ttl_seconds * 1000) later h),
      )

-- What the receiver sends back and the giver opens.
module _ (p : Platform) (law : IsLawful p) (alice bob : Identity) (ka : IsKeyed p alice)
    (kb : IsKeyed p bob) where
  abbrev accept_body : (label wg0 nonce : Str) → (now : ℕ) → Str → FriendAccept
  accept_body label wg0 nonce now sig = record {
    v = 1;
    sender = peer_pub_of p bob label wg0;
    ref = nonce;
    issued = p.iso_date now;
    sig = sig;
  }

  accept_of_json-accept_json :
      (label wg0 nonce : Str) (now : ℕ) (sig : Str)
      → accept_of_json p (accept_json p (accept_body label wg0 nonce now sig))
        ≡ ok (accept_body label wg0 nonce now sig)
  unfolding accept_of_json accept_json peer_pub_json property as_text str_beq
  accept_of_json-accept_json label wg0 nonce now sig = refl

  make_accept-ok :
      (label wg0 : Str) (token : FriendToken) (entropy now : ℕ)
      → token.sender.x25519 ≡ to_b64 p alice.x_public
      → (blob sig : Str) × (make_accept p bob label wg0 token entropy now ≡ ok blob)
        × (open_accept p alice blob ≡ ok (accept_body label wg0 token.nonce now sig))
  unfolding make_accept sign_json open_accept peer_pub_of
  make_accept-ok label wg0 token entropy now sealed_to =
      let (text, e) = accept_text (accept_body label wg0 token.nonce now []) in
      let sig = to_b64 p (p.sign text bob.ed_secret) in
      let a : FriendAccept = accept_body label wg0 token.nonce now sig in
      let signed : verify_json p (accept_signable a) sig (to_b64 p bob.ed_public) ≡ ok true =
        unfold accept_signable in verify-sign p law bob kb _ text e in
      let (c, sealing, opening) =
        law.sealed entropy (p.print_json (accept_json p a)) alice.x_private in
      let sealing' : p.seal entropy (p.print_json (accept_json p a)) alice.x_public ≡ some c =
        rw ka.box sealing in
      let opening' : p.seal_open c alice.x_public alice.x_private
          ≡ some (p.print_json (accept_json p a)) =
        rw ka.box opening in
      (
        to_b64 p c,
        sig,
        ground (arith, ap (from_b64 p) sealed_to, from_b64-to_b64 p law alice.x_public),
        ground (
          arith,
          from_b64-to_b64 p law c,
          law.json (accept_json p a),
          accept_of_json-accept_json label wg0 token.nonce now sig,
        ),
      )

module _ (p : Platform) where
  -- The four calls: the giver issues, the receiver receives and accepts, the giver confirms.
  unfoldable pub handshake :
      (ttl_seconds : ℕ)
      → (random : Bytes) → (entropy t0 t1 t2 t3 : ℕ) → FriendBook
      → FriendBook
      → Result Thrown (FriendBook × FriendBook)
  handshake ttl_seconds random entropy t0 t1 t2 t3 giver receiver = do
    (token, giver1) ← issue_token p ttl_seconds random t0 giver
    (peer, receiver1) ← receive p token t1 receiver
    (blob, receiver2) ← accept p (self_ed p giver) entropy t2 receiver1
    (rec, giver2) ← confirm p blob t3 giver1
    ok (giver2, receiver2)

  abbrev pub friend_of : FriendBook → Str → ℕ → FriendRecord
  friend_of b nonce now = record {
    peer = peer_pub_of p b.id b.label b.wg0;
    state = FriendState.friends;
    nonce = nonce;
    since = p.iso_date now;
  }

  abbrev pub IsFriend : Str → Option FriendRecord → FriendBook → Type 0
  IsFriend peer r b = friend peer b ≡ r

  receive-ok :
      (t : FriendToken) (now : ℕ) (b : FriendBook) (sender : PeerPub)
      → verify_token p t now ≡ ok sender
      → contains t.nonce b.consumed ≡ false
      → sender.ed25519 ≢ self_ed p b
      → receive p t now b
        ≡ ok (
          sender,
          record b {
            books = record b.books {
              pending =
                  Maps.set sender.ed25519
                    (record { token = t; received = p.iso_date now })
                    b.pending;
            };
          },
        )
  unfolding receive
  receive-ok t now b sender verified unused other =
      ground (arith, str_beq_iff sender.ed25519 (self_ed p b))

  accept-ok :
      (giver blob : Str) (q : Pending) (entropy now : ℕ) (b : FriendBook)
      → Maps.get giver b.pending ≡ some q
      → is_past p q.token.expires now ≡ false
      → make_accept p b.id b.label b.wg0 q.token entropy now ≡ ok blob
      → accept p giver entropy now b ≡ ok (blob, befriend p giver q now b)
  unfolding accept
  accept-ok giver blob q entropy now b found fresh made = ground arith

  confirm-ok :
      (blob : Str) (a : FriendAccept) (offer : FriendToken) (now : ℕ) (b : FriendBook)
      → open_accept p b.id blob ≡ ok a
      → Maps.get a.ref b.offered ≡ some offer
      → contains a.ref b.consumed ≡ false
      → is_past p offer.expires now ≡ false
      → confirm p blob now b
        ≡ ok (
          confirmed p a now,
          record b {
            books = record b.books {
              offered = Maps.delete a.ref b.offered;
              consumed = add a.ref b.consumed;
              friends = Maps.set a.sender.ed25519 (confirmed p a now) b.friends;
            };
          },
        )
  unfolding confirm
  confirm-ok blob a offer now b opened found unused fresh = ground arith

  -- Between two nodes with different keys, on a platform that behaves as documented, the four calls
  -- succeed within the life of the token, if its deadline is a time that a Date can hold and its
  -- nonce is new to both, and each node then holds the other's verified keys as a friend.
  pub handshake_mutual :
      IsLawful p
      → (ttl_seconds : ℕ) (random : Bytes) (entropy t0 t1 t2 t3 : ℕ) (giver receiver : FriendBook)
      → IsKeyed p giver.id
      → IsKeyed p receiver.id
      → self_ed p giver ≢ self_ed p receiver
      → contains (to_b64 p random) giver.consumed ≡ false
      → contains (to_b64 p random) receiver.consumed ≡ false
      → t0 + ttl_seconds * 1000 ≤ max_date_ms
      → (t1 ≤ t0 + ttl_seconds * 1000)
        × (t2 ≤ t0 + ttl_seconds * 1000)
        × (t3 ≤ t0 + ttl_seconds * 1000)
      → (giver' receiver' : FriendBook) × (handshake ttl_seconds random entropy t0 t1 t2 t3 giver
            receiver
          ≡ ok (giver', receiver'))
        × (friend (self_ed p receiver) giver' ≡ some (friend_of receiver (to_b64 p random) t3))
        × (friend (self_ed p giver) receiver' ≡ some (friend_of giver (to_b64 p random) t2))
  unfolding handshake issue_token friend peer_pub_of
  handshake_mutual law ttl_seconds random entropy t0 t1 t2 t3 giver receiver ka kb other na nb dated
        (h1, h2, h3) =
      let nonce = to_b64 p random in
      let deadline = t0 + ttl_seconds * 1000 in
      let (sig, made, verified) =
        make_token-ok p law giver.id ka giver.label giver.wg0 ttl_seconds random t0 dated in
      let token : FriendToken =
        token_body p law giver.id ka giver.label giver.wg0 ttl_seconds random t0 sig in
      let giver1 : FriendBook = record giver {
        books = record giver.books { offered = Maps.set nonce token giver.offered };
      } in
      let received = receive-ok token t1 receiver token.sender (verified t1 h1) nb other in
      let q : Pending = record { token = token; received = p.iso_date t1 } in
      let receiver1 : FriendBook = record receiver {
        books = record receiver.books {
          pending = Maps.set token.sender.ed25519 q receiver.pending;
        };
      } in
      let (blob, sig', sealed, opened) =
        make_accept-ok p law giver.id receiver.id ka kb receiver.label receiver.wg0 token entropy t2
          refl in
      let accepted =
        accept-ok (self_ed p giver) blob q entropy t2 receiver1
          (Maps.get-set_self (self_ed p giver) q receiver.pending)
          (is_past_iso p law giver.id ka deadline t2 h2) sealed in
      let a : FriendAccept =
        accept_body p law giver.id receiver.id ka kb receiver.label receiver.wg0 nonce t2 sig' in
      let done =
        confirm-ok blob a token t3 giver1 opened (Maps.get-set_self nonce token giver.offered) na
          (is_past_iso p law giver.id ka deadline t3 h3) in
      (
        _,
        _,
        bind-ok (issue_token p ttl_seconds random t0 giver) _ (bind-ok _ _ made refl) (
            bind-ok (receive p token t1 receiver) _ received (
              bind-ok (accept p (self_ed p giver) entropy t2 receiver1) _ accepted
                (bind-ok (confirm p blob t3 giver1) _ done refl))),
        Maps.get-set_self (self_ed p receiver) (confirmed p a t3) giver.friends,
        Maps.get-set_self (self_ed p giver) _ receiver.friends,
      )
