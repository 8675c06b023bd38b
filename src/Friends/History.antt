-- ===== src/Friends/History.antt =====
-- The book of core/friends.ts after any history of calls.
use vpn_pi.Common.{
  ℕ, ◌≡◌, ◌≢◌, refl, sym, ap, subst, ◌∙◌, true, false, not, some, List, [], ◌∷◌, Str, nat_eq,
  str_eq, contains, add, arith, contains-add_self, contains-add_mono,
}
use vpn_pi.Common.Maps
use vpn_pi.Errors.{Thrown, friend_error, no_offer, no_pending}
use vpn_pi.Errors.Result.{Result, ok, err, >>=-eq-ok, ensure-ok, or_throw-ok}
use vpn_pi.Platform.{Bytes, Platform}
use vpn_pi.Identity.{Identity}
use vpn_pi.Friends.Wire.{
  PeerPub, FriendToken, FriendAccept, FriendRevoke, verify_token, is_past, make_accept, open_accept,
  make_token,
}
use vpn_pi.Friends.Book.{
  FriendRecord, Pending, FriendBook, new_book, revoke, issue_token, receive, befriend, accept,
  confirmed, confirm, issue_revoke, receive_revoke, friend,
}
use vpn_pi.Friends.Revocation.{receive_revoke-IsRevokedBy}
use vpn_pi.Friends.Invariant.{
  IsGenuine, IsVouched, issue_token-IsGenuine, receive-IsGenuine, accept-IsGenuine,
  confirm-IsGenuine, delete-IsGenuine, issue_revoke-IsGenuine, receive_revoke-IsGenuine,
  new_book-IsGenuine,
}

pub data Call : Type 0 where
  issues : (ttl_seconds : ℕ) → (random : Bytes) → (now : ℕ) → Call
  receives : FriendToken → (now : ℕ) → Call
  accepts : (giver : Str) → (entropy now : ℕ) → Call
  confirms : (blob : Str) → (now : ℕ) → Call
  revokes : (peer : Str) → Call
  issues_revoke : (peer : Str) → (random : Bytes) → (now : ℕ) → Call
  receives_revoke : FriendRevoke → Call

-- A call that throws leaves the book as it was.
abbrev pub after {ℓ} : {A : Type ℓ} → FriendBook → Result Thrown (A × FriendBook) → FriendBook
after b (ok (a, b')) = b'
after b (err e) = b

after_cases {ℓ κ} :
    {A : Type ℓ} (P : FriendBook → Type κ) (b : FriendBook) (r : Result Thrown (A × FriendBook))
    → P b
    → ((a : A) (b' : FriendBook) → r ≡ ok (a, b') → P b')
    → P (after b r)
after_cases P b (ok (a, b')) h k = k a b' refl
after_cases P b (err e) h k = h

module _ (p : Platform) where
  unfoldable pub step : FriendBook → Call → FriendBook
  step b (issues ttl_seconds random now) = after b (issue_token p ttl_seconds random now b)
  step b (receives token now) = after b (receive p token now b)
  step b (accepts giver entropy now) = after b (accept p giver entropy now b)
  step b (confirms blob now) = after b (confirm p blob now b)
  step b (revokes peer) = (revoke peer b).1
  step b (issues_revoke peer random now) = after b (issue_revoke p peer random now b)
  step b (receives_revoke n) = after b (receive_revoke p n b)

  unfoldable pub run : FriendBook → List Call → FriendBook
  run b [] = b
  run b (c ∷ cs) = run (step b c) cs

  step-IsGenuine : (b : FriendBook) (c : Call) → IsGenuine p b → IsGenuine p (step b c)
  unfolding step
  step-IsGenuine b (issues ttl_seconds random now) g =
      after_cases (IsGenuine p) b (issue_token p ttl_seconds random now b) g
        λ t b' e. issue_token-IsGenuine p ttl_seconds random now b t b' g e
  step-IsGenuine b (receives token now) g =
      after_cases (IsGenuine p) b (receive p token now b) g
        λ s b' e. receive-IsGenuine p token now b s b' g e
  step-IsGenuine b (accepts giver entropy now) g =
      after_cases (IsGenuine p) b (accept p giver entropy now b) g
        λ blob b' e. accept-IsGenuine p giver entropy now b blob b' g e
  step-IsGenuine b (confirms blob now) g =
      after_cases (IsGenuine p) b (confirm p blob now b) g
        λ r b' e. confirm-IsGenuine p blob now b r b' g e
  step-IsGenuine b (revokes peer) g = delete-IsGenuine p peer b g
  step-IsGenuine b (issues_revoke peer random now) g =
      after_cases (IsGenuine p) b (issue_revoke p peer random now b) g
        λ o b' e. issue_revoke-IsGenuine p peer random now b o b' g e
  step-IsGenuine b (receives_revoke n) g =
      after_cases (IsGenuine p) b (receive_revoke p n b) g
        λ r b' e. receive_revoke-IsGenuine p n b r b' g e

  run-IsGenuine : (b : FriendBook) (cs : List Call) → IsGenuine p b → IsGenuine p (run b cs)
  unfolding run
  run-IsGenuine b [] g = g
  run-IsGenuine b (c ∷ cs) g = run-IsGenuine (step b c) cs (step-IsGenuine b c g)

  -- Whatever calls a new node has seen, every friend in its book stands under its own Ed25519 key,
  -- and a token or an accept that carries exactly these keys and the recorded nonce was signed
  -- with that key: no call adds a friend without the counterparty's signature.
  pub friend-run-IsVouched :
      (id : Identity) (label wg0 : Str) (cs : List Call) (peer : Str) (r : FriendRecord)
      → friend peer (run (new_book id label wg0) cs) ≡ some r
      → (r.peer.ed25519 ≡ peer) × IsVouched p r
  unfolding friend
  friend-run-IsVouched id label wg0 cs peer r found =
      let b = run (new_book id label wg0) cs in
      let g = run-IsGenuine (new_book id label wg0) cs (new_book-IsGenuine p id label wg0) in
      let (same, state, spent, vouched) = Maps.All-get _ peer r b.friends g.friends_ok found in
      (same, vouched)

  accept-spends :
      (giver : Str) (entropy now : ℕ) (b : FriendBook) (blob : Str) (b' : FriendBook)
      → accept p giver entropy now b ≡ ok (blob, b')
      → (q : Pending) × (Maps.get giver b.pending ≡ some q) × (b' ≡ befriend p giver q now b)
  unfolding accept
  accept-spends giver entropy now b blob b' h =
      let (q, found, h1) = or_throw-ok (Maps.get giver b.pending) (friend_error no_pending) _ h in
      let (fresh, h2) = ensure-ok (not (is_past p q.token.expires now)) _ _ h1 in
      let (made, sealed, h3) =
        >>=-eq-ok (make_accept p b.id b.label b.wg0 q.token entropy now) _ h2 in
      (q, found, ground arith)

  confirm-spends :
      (blob : Str) (now : ℕ) (b : FriendBook) (rec : FriendRecord) (b' : FriendBook)
      → confirm p blob now b ≡ ok (rec, b')
      → (a : FriendAccept) × (open_accept p b.id blob ≡ ok a)
        × (rec ≡ confirmed p a now)
        × (contains a.ref b.consumed ≡ false)
        × (b'.consumed ≡ add a.ref b.consumed)
        × (b'.id ≡ b.id)
  unfolding confirm
  confirm-spends blob now b rec b' h =
      let (a, opened, h1) = >>=-eq-ok (open_accept p b.id blob) _ h in
      let (offer, found, h2) =
        or_throw-ok (Maps.get a.ref b.offered) (friend_error no_offer) _ h1 in
      let (unused, h3) = ensure-ok (not (contains a.ref b.consumed)) _ _ h2 in
      let (fresh, h4) = ensure-ok (not (is_past p offer.expires now)) _ _ h3 in
      (a, opened, ground arith, ground arith, ground arith, ground arith)

  -- A nonce that is spent stays spent.
  module _ (n : Str) where
    abbrev Spent : FriendBook → Type 0
    Spent b = contains n b.consumed ≡ true

    step-Spent : (b : FriendBook) (c : Call) → Spent b → Spent (step b c)
    unfolding step
    step-Spent b (issues ttl_seconds random now) s =
        after_cases Spent b (issue_token p ttl_seconds random now b) s λ t b' e.
          unfold issue_token in
          let (made, minted, h1) =
            >>=-eq-ok (make_token p b.id b.label b.wg0 ttl_seconds random now) _ e in
          ground arith
    step-Spent b (receives token now) s = unfold receive in ground arith
    step-Spent b (accepts giver entropy now) s =
        after_cases Spent b (accept p giver entropy now b) s λ blob b' e.
          let (q, found, same) = accept-spends giver entropy now b blob b' e in
          subst Spent (sym same) (contains-add_mono q.token.nonce n b.consumed s)
    step-Spent b (confirms blob now) s = after_cases Spent b (confirm p blob now b) s λ rec b' e.
        let (a, opened, same, unused, spent, id) = confirm-spends blob now b rec b' e in
        rw spent (contains-add_mono a.ref n b.consumed s)
    step-Spent b (revokes peer) s = unfold revoke in s
    step-Spent b (issues_revoke peer random now) s = unfold issue_revoke in ground arith
    step-Spent b (receives_revoke m) s = after_cases Spent b (receive_revoke p m b) s λ rec b' e.
        let r = receive_revoke-IsRevokedBy p m b rec b' e in
        subst Spent (sym r.result) (contains-add_mono m.nonce n b.consumed s)

    run-Spent : (b : FriendBook) (cs : List Call) → Spent b → Spent (run b cs)
    unfolding run
    run-Spent b [] s = s
    run-Spent b (c ∷ cs) s = run-Spent (step b c) cs (step-Spent b c s)

  receive-unused :
      (t : FriendToken) (now : ℕ) (b : FriendBook) (sender : PeerPub) (b' : FriendBook)
      → receive p t now b ≡ ok (sender, b')
      → contains t.nonce b.consumed ≡ false
  unfolding receive
  receive-unused t now b sender b' h =
      let (from, verified, h1) = >>=-eq-ok (verify_token p t now) _ h in
      let (unused, h2) = ensure-ok (not (contains t.nonce b.consumed)) _ _ h1 in ground arith

  -- Once a request is accepted, no token with its nonce is received again, whatever calls come in
  -- between: not even after the friendship was revoked. The tokens are those of the type
  -- FriendToken, whose nonce is a text; the routes also let other JSON values through.
  pub receive_after_accept :
      (giver blob : Str) (entropy now later : ℕ) (b b' b'' : FriendBook) (q : Pending)
      (t : FriendToken) (sender : PeerPub) (cs : List Call)
      → Maps.get giver b.pending ≡ some q
      → accept p giver entropy now b ≡ ok (blob, b')
      → t.nonce ≡ q.token.nonce
      → receive p t later (run b' cs) ≢ ok (sender, b'')
  receive_after_accept giver blob entropy now later b b' b'' q t sender cs found accepted same
        again =
      let (q', found', result) = accept-spends giver entropy now b blob b' accepted in
      let one : q' ≡ q = ground arith in
      let spent : contains t.nonce b'.consumed ≡ true =
        rw (result, same, ← one) (contains-add_self q'.token.nonce b.consumed) in
      let still = run-Spent t.nonce b' cs spent in
      cc (still, receive-unused t later (run b' cs) sender b'' again)

  -- Two confirmations of one book, with any calls in between, never rest on the same offer.
  pub confirm_after_confirm :
      (blob blob' : Str) (now later : ℕ) (b b' b'' : FriendBook) (rec rec' : FriendRecord)
      (cs : List Call)
      → confirm p blob now b ≡ ok (rec, b')
      → confirm p blob' later (run b' cs) ≡ ok (rec', b'')
      → rec'.nonce ≢ rec.nonce
  confirm_after_confirm blob blob' now later b b' b'' rec rec' cs done again same =
      let (a, opened, r, unused, spent, i) = confirm-spends blob now b rec b' done in
      let (a', opened', r', unused', spent', i') =
        confirm-spends blob' later (run b' cs) rec' b'' again in
      let is_spent : contains a.ref b'.consumed ≡ true =
        rw spent (contains-add_self a.ref b.consumed) in
      let still = run-Spent a.ref b' cs is_spent in
      let one : a'.ref ≡ a.ref =
        sym (ap (λ (x : FriendRecord). x.nonce) r')
        ∙ (same ∙ ap (λ (x : FriendRecord). x.nonce) r) in
      cc (still, unused', one)
