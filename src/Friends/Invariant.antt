-- ===== src/Friends/Invariant.antt =====
-- How a friendship can come about: an invariant of the book of core/friends.ts.
use vpn_pi.Common.{
  ℕ, ◌≡◌, ◌≢◌, refl, sym, ap, true, false, not, Option, List, Str, nat_eq, str_eq, str_beq_iff,
  ◌==◌, contains, add, All, ◌⊎◌, inl, inr, arith, contains-add_self, All-imp, subst,
  contains-add_mono, Option-cases,
}
use vpn_pi.Common.Maps
use vpn_pi.Common.Maps.{Map}
use vpn_pi.Errors.{friend_error, cannot_open, no_pending, malformed, no_offer}
use vpn_pi.Errors.Result.{ok, >>=-eq-ok, ensure-ok, or_throw-ok}
use vpn_pi.Platform.{Bytes, Platform}
use vpn_pi.Codec.{from_b64}
use vpn_pi.Identity.{Identity}
use vpn_pi.Friends.Wire.{
  PeerPub, FriendToken, FriendAccept, FriendRevoke, token_signable, accept_signable, verify_json,
  is_past, make_token, verify_token, make_accept, open_accept, accept_of_json,
}
use vpn_pi.Friends.Revocation.{receive_revoke-IsRevokedBy}
use vpn_pi.Friends.Book.{
  FriendState, FriendRecord, Pending, FriendBook, new_book, revoke, self_ed, issue_token, receive,
  befriend, accept, confirmed, confirm, issue_revoke, receive_revoke, Notice,
}

module _ (p : Platform) where
  abbrev pub IsSignedToken : FriendToken → Type 0
  IsSignedToken t = verify_json p (token_signable t) t.sig t.sender.ed25519 ≡ ok true

  abbrev pub IsSignedAccept : FriendAccept → Type 0
  IsSignedAccept a = verify_json p (accept_signable a) a.sig a.sender.ed25519 ≡ ok true

  -- Someone who holds the friend's own key has signed a token or an accept with these keys and
  -- this nonce.
  abbrev pub IsVouched : FriendRecord → Type 0
  IsVouched r =
      ((t : FriendToken) × IsSignedToken t × (t.sender ≡ r.peer) × (t.nonce ≡ r.nonce))
      ⊎ ((a : FriendAccept) × IsSignedAccept a × (a.sender ≡ r.peer) × (a.ref ≡ r.nonce))

  abbrev pub GoodFriend : List Str → Str × FriendRecord → Type 0
  GoodFriend consumed (k, r) =
      (r.peer.ed25519 ≡ k)
      × (r.state ≡ FriendState.friends)
      × (contains r.nonce consumed ≡ true)
      × IsVouched r

  abbrev pub GoodPending : Str → Str × Pending → Type 0
  GoodPending self (k, q) = (q.token.sender.ed25519 ≡ k) × (k ≢ self) × IsSignedToken q.token

  pub record IsGenuine (b : FriendBook) : Type 0 where
    pub friends_ok : All (GoodFriend b.consumed) b.friends
    pub pending_ok : All (GoodPending (self_ed p b)) b.pending

  verify_token-ok :
      (t : FriendToken) (now : ℕ) (sender : PeerPub)
      → verify_token p t now ≡ ok sender
      → IsSignedToken t × (t.sender ≡ sender) × (is_past p t.expires now ≡ false) × (t.v ≡ 1)
  unfolding verify_token
  verify_token-ok t now sender h =
      let (one, h1) = ensure-ok (t.v == 1) _ _ h in
      let (valid, signed, h2) =
        >>=-eq-ok (verify_json p (token_signable t) t.sig t.sender.ed25519) _ h1 in
      let (good, h3) = ensure-ok valid _ _ h2 in
      let (fresh, h4) = ensure-ok (not (is_past p t.expires now)) _ _ h3 in
      (rw (← good) signed, cc, ground arith, ground arith)

  open_accept-ok :
      (id : Identity) (blob : Str) (a : FriendAccept)
      → open_accept p id blob ≡ ok a
      → IsSignedAccept a
  unfolding open_accept
  open_accept-ok id blob a h =
      let (raw, decoded, h1) = or_throw-ok (from_b64 p blob) (friend_error cannot_open) _ h in
      let (inner, opened, h2) =
        or_throw-ok (p.seal_open raw id.x_public id.x_private) (friend_error cannot_open) _ h1 in
      let (value, parsed, h3) = or_throw-ok (p.parse_json inner) (friend_error malformed) _ h2 in
      let (given, read, h4) = >>=-eq-ok (accept_of_json p value) _ h3 in
      let (valid, signed, h5) =
        >>=-eq-ok (verify_json p (accept_signable given) given.sig given.sender.ed25519) _ h4 in
      let (good, h6) = ensure-ok valid _ _ h5 in
      let same : given ≡ a = ground arith in rw (← same) (rw (← good) signed)

  GoodFriend-add :
      (n : Str) (consumed : List Str) (m : Map Str FriendRecord)
      → All (GoodFriend consumed) m
      → All (GoodFriend (add n consumed)) m
  GoodFriend-add n consumed m =
      All-imp (λ e (k, s, c, v). (k, s, contains-add_mono n e.1.nonce consumed c, v)) m

  pub receive-IsGenuine :
      (t : FriendToken) (now : ℕ) (b : FriendBook) (sender : PeerPub) (b' : FriendBook)
      → IsGenuine b
      → receive p t now b ≡ ok (sender, b')
      → IsGenuine b'
  unfolding receive
  receive-IsGenuine t now b sender b' g h =
      let (from, verified, h1) = >>=-eq-ok (verify_token p t now) _ h in
      let (unused, h2) = ensure-ok (not (contains t.nonce b.consumed)) _ _ h1 in
      let (other, h3) = ensure-ok (not (from.ed25519 == self_ed p b)) _ _ h2 in
      let (signed, same, fresh, v1) = verify_token-ok t now from verified in
      let q : Pending = record { token = t; received = p.iso_date now } in
      let entry : GoodPending (self_ed p b) (from.ed25519, q) = (
        ap (λ (s : PeerPub). s.ed25519) same,
        ground (arith, str_beq_iff from.ed25519 (self_ed p b)),
        signed,
      ) in
      let after : FriendBook = record b {
        books = record b.books { pending = Maps.set from.ed25519 q b.pending };
      } in
      let e : after ≡ b' = ground arith in
      subst IsGenuine e (record {
        friends_ok = g.friends_ok;
        pending_ok = Maps.All-set _ from.ed25519 q b.pending entry g.pending_ok;
      })

  pub accept-IsGenuine :
      (giver : Str) (entropy now : ℕ) (b : FriendBook) (blob : Str) (b' : FriendBook)
      → IsGenuine b
      → accept p giver entropy now b ≡ ok (blob, b')
      → IsGenuine b'
  unfolding accept
  accept-IsGenuine giver entropy now b blob b' g h =
      let (q, found, h1) = or_throw-ok (Maps.get giver b.pending) (friend_error no_pending) _ h in
      let (fresh, h2) = ensure-ok (not (is_past p q.token.expires now)) _ _ h1 in
      let (made, sealed, h3) =
        >>=-eq-ok (make_accept p b.id b.label b.wg0 q.token entropy now) _ h2 in
      let (same, other, signed) = Maps.All-get _ giver q b.pending g.pending_ok found in
      let n = q.token.nonce in
      let e : befriend p giver q now b ≡ b' = ground arith in
      subst IsGenuine e (record {
        friends_ok =
            Maps.All-set _ giver _ b.friends
              (same, refl, contains-add_self n b.consumed, inl (q.token, signed, refl, refl))
              (GoodFriend-add n b.consumed b.friends g.friends_ok);
        pending_ok = Maps.All-delete _ giver b.pending g.pending_ok;
      })

  pub confirm-IsGenuine :
      (blob : Str) (now : ℕ) (b : FriendBook) (rec : FriendRecord) (b' : FriendBook)
      → IsGenuine b
      → confirm p blob now b ≡ ok (rec, b')
      → IsGenuine b'
  unfolding confirm
  confirm-IsGenuine blob now b rec b' g h =
      let (a, opened, h1) = >>=-eq-ok (open_accept p b.id blob) _ h in
      let (offer, found, h2) =
        or_throw-ok (Maps.get a.ref b.offered) (friend_error no_offer) _ h1 in
      let (unused, h3) = ensure-ok (not (contains a.ref b.consumed)) _ _ h2 in
      let (fresh, h4) = ensure-ok (not (is_past p offer.expires now)) _ _ h3 in
      let signed = open_accept-ok b.id blob a opened in
      let after : FriendBook = record b {
        books = record b.books {
          offered = Maps.delete a.ref b.offered;
          consumed = add a.ref b.consumed;
          friends = Maps.set a.sender.ed25519 (confirmed p a now) b.friends;
        };
      } in
      let e : after ≡ b' = ground arith in
      subst IsGenuine e (record {
        friends_ok =
            Maps.All-set _ a.sender.ed25519 (confirmed p a now) b.friends
              (refl, refl, contains-add_self a.ref b.consumed, inr (a, signed, refl, refl))
              (GoodFriend-add a.ref b.consumed b.friends g.friends_ok);
        pending_ok = g.pending_ok;
      })

  -- Deleting friendships keeps the invariant.
  pub delete-IsGenuine : (peer : Str) (b : FriendBook) → IsGenuine b → IsGenuine (revoke peer b).1
  unfolding revoke
  delete-IsGenuine peer b g = record {
    friends_ok = Maps.All-delete _ peer b.friends g.friends_ok;
    pending_ok = g.pending_ok;
  }

  pub issue_token-IsGenuine :
      (ttl_seconds : ℕ) (random : Bytes) (now : ℕ) (b : FriendBook) (t : FriendToken)
      (b' : FriendBook)
      → IsGenuine b
      → issue_token p ttl_seconds random now b ≡ ok (t, b')
      → IsGenuine b'
  unfolding issue_token
  issue_token-IsGenuine ttl_seconds random now b t b' g h =
      let (made, minted, h1) =
        >>=-eq-ok (make_token p b.id b.label b.wg0 ttl_seconds random now) _ h in
      let after : FriendBook = record b {
        books = record b.books { offered = Maps.set made.nonce made b.offered };
      } in
      let e : after ≡ b' = ground arith in
      subst IsGenuine e (record { friends_ok = g.friends_ok; pending_ok = g.pending_ok })

  pub issue_revoke-IsGenuine :
      (peer : Str) (random : Bytes) (now : ℕ) (b : FriendBook) (o : Option Notice) (b' : FriendBook)
      → IsGenuine b
      → issue_revoke p peer random now b ≡ ok (o, b')
      → IsGenuine b'
  unfolding issue_revoke
  issue_revoke-IsGenuine peer random now b o b' g h =
      elim (Option-cases (Maps.get peer b.friends)) [
        | inl e ↦ subst IsGenuine (let e' : b ≡ b' = ground arith in e') g
        | inr (rec, e) ↦
            let kept = delete-IsGenuine peer b g in
            subst IsGenuine (let e' : (revoke peer b).1 ≡ b' = unfold revoke in ground arith in e')
              kept
      ]

  pub receive_revoke-IsGenuine :
      (n : FriendRevoke) (b : FriendBook) (rec : FriendRecord) (b' : FriendBook)
      → IsGenuine b
      → receive_revoke p n b ≡ ok (rec, b')
      → IsGenuine b'
  receive_revoke-IsGenuine n b rec b' g h =
      let r = receive_revoke-IsRevokedBy p n b rec b' h in
      subst IsGenuine (sym r.result) (record {
        friends_ok =
            Maps.All-delete _ n.sender b.friends
              (GoodFriend-add n.nonce b.consumed b.friends g.friends_ok);
        pending_ok = g.pending_ok;
      })

  pub new_book-IsGenuine : (id : Identity) (label wg0 : Str) → IsGenuine (new_book id label wg0)
  unfolding new_book
  new_book-IsGenuine id label wg0 = record { friends_ok = tt; pending_ok = tt }
