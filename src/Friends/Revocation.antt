-- ===== src/Friends/Revocation.antt =====
-- What receiveRevoke (core/friends.ts) checks and does, as a predicate.
use vpn_pi.Common.{
  ℕ, ◌≡◌, sym, ap, subst, ◌∙◌, true, false, not, some, nat_eq, str_eq, str_beq_iff, ◌==◌, contains,
  add, arith,
}
use vpn_pi.Common.Maps
use vpn_pi.Errors.{friend_error, malformed, not_a_friend}
use vpn_pi.Errors.Result.{ok, err, >>=-eq-ok, ensure-ok, or_throw-ok}
use vpn_pi.Platform.{Platform}
use vpn_pi.Friends.Wire.{FriendRevoke, revoke_signable, verify_json}
use vpn_pi.Friends.Book.{FriendRecord, FriendBook, self_ed, is_stale, receive_revoke}

module _ (p : Platform) where
  abbrev pub without : FriendRevoke → FriendBook → FriendBook
  without n b = record b {
    books = record b.books {
      consumed = add n.nonce b.consumed;
      friends = Maps.delete n.sender b.friends;
    };
  }

  -- The checks that an accepted notice has passed, and the book afterwards.
  pub record IsRevokedBy (n : FriendRevoke) (b : FriendBook) (rec : FriendRecord) (b' : FriendBook)
      : Type 0 where
    pub version : n.v ≡ 1
    pub addressed : n.target ≡ self_ed p b
    pub stored : Maps.get n.sender b.friends ≡ some rec
    pub unused : contains n.nonce b.consumed ≡ false
    pub signed : verify_json p (revoke_signable n) n.sig rec.peer.ed25519 ≡ ok true
    pub at : ℕ
    pub dated : p.parse_date n.at ≡ some at
    pub in_era : is_stale p at rec.since ≡ false
    pub result : b' ≡ without n b

  -- A notice is obeyed only if it is addressed to this node, its sender is a friend, its nonce is
  -- new, the stored key of that friend has signed it, and it is not dated before the friendship
  -- (less the allowed skew). It then deletes that friendship and spends its nonce; nothing else in
  -- the book changes.
  pub receive_revoke-IsRevokedBy :
      (n : FriendRevoke) (b : FriendBook) (rec : FriendRecord) (b' : FriendBook)
      → receive_revoke p n b ≡ ok (rec, b')
      → IsRevokedBy n b rec b'
  unfolding receive_revoke
  receive_revoke-IsRevokedBy n b rec b' h =
      let (one, h1) = ensure-ok (n.v == 1) _ _ h in
      let (target, h2) = ensure-ok (n.target == self_ed p b) _ _ h1 in
      let (r, found, h3) =
        or_throw-ok (Maps.get n.sender b.friends) (friend_error not_a_friend) _ h2 in
      let (unused, h4) = ensure-ok (not (contains n.nonce b.consumed)) _ _ h3 in
      let (valid, signed, h5) =
        >>=-eq-ok (verify_json p (revoke_signable n) n.sig r.peer.ed25519) _ h4 in
      let (good, h6) = ensure-ok valid _ _ h5 in
      let (at, dated, h7) = or_throw-ok (p.parse_date n.at) (friend_error malformed) _ h6 in
      let (fresh, h8) = ensure-ok (not (is_stale p at r.since)) _ _ h7 in
      let same : r ≡ rec = ground arith in
      let began : is_stale p at r.since ≡ false = ground arith in
      record {
        version = ground arith;
        addressed = (str_beq_iff n.target (self_ed p b)).0 target;
        stored = found ∙ ap some same;
        unused = ground arith;
        signed =
            subst (λ x. verify_json p (revoke_signable n) n.sig x.peer.ed25519 ≡ ok true) same
              (signed ∙ ap ok good);
        at = at;
        dated = dated;
        in_era = subst (λ x. is_stale p at x.since ≡ false) same began;
        result = ground arith;
      }

  -- A notice works once: on the book that it leaves, it throws.
  pub receive_revoke_twice :
      (n : FriendRevoke) (b : FriendBook) (rec : FriendRecord) (b' : FriendBook)
      → receive_revoke p n b ≡ ok (rec, b')
      → receive_revoke p n b' ≡ err (friend_error not_a_friend)
  unfolding receive_revoke
  receive_revoke_twice n b rec b' h =
      let r = receive_revoke-IsRevokedBy n b rec b' h in
      subst (λ x. receive_revoke p n x ≡ err (friend_error not_a_friend)) (sym r.result)
        (ground
          (arith, Maps.get-delete_self n.sender b.friends, str_beq_iff n.target (self_ed p b)))
