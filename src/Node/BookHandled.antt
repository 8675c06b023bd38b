-- ===== src/Node/BookHandled.antt =====
-- Every handler of the friend book (main.ts) makes only the changes of `Respects`.
use vpn_pi.Common.{ℕ, ◌≡◌, refl, sym, subst, arith, Option, none, some, Str}
use vpn_pi.Errors.{Thrown}
use vpn_pi.Errors.Result.{Result, ok, err}
use vpn_pi.Platform.{Bytes}
use vpn_pi.Friends.Wire.{PeerPub, FriendToken, FriendRevoke}
use vpn_pi.Friends.Book.{
  FriendRecord, FriendBook, Notice, issue_token, receive, accept, confirm, issue_revoke,
  receive_revoke,
}
use vpn_pi.Friends.History.{
  Call, issues, receives, accepts, confirms, issues_revoke, receives_revoke, step, after,
}
use vpn_pi.Node.State.{
  Runtime, Config, World, Http, Node, Act, on_book, put_book, proceed, give, persist, ◌>>=◌, ◌>>◌,
}
use vpn_pi.Node.Friending.{
  operator_only, get_friends_route, token_route, receive_route, accept_route, confirm_route,
  add_route, request_route, accept_inbound_route, identity_route, notify, revoke_peer, tell_peer,
  delete_friend_route, revoke_inbound_route,
}
use vpn_pi.Node.Within.{
  persist-Within, Respects, Within, with_book, persisted, bind-Within, seq-Within, call-Within,
  deliver-Within, deliver_if_any-Within, pure-Within, give-Within, pure_then-Within,
  reading_then-Within, require_operator-Within,
}

module _ (rt : Runtime) (cfg : Config) (w : World) (req : Http) {R : Node → Node → Type 0}
    (rules : Respects rt.platform R) where
  open rules use {same, then_also, call}
  open rt use {platform}

  pub operator_only-Within : Within R (operator_only rt cfg w req)
  unfolding operator_only
  operator_only-Within = require_operator-Within rules rt.sha256 req.guard w.now w.pushed

  module _ {B : Type 0} where
    issue-Within :
        (ttl_seconds : ℕ) (random : Bytes) (now : ℕ) (next : FriendToken → Act B)
        → ((t : FriendToken) → Within R (next t))
        → Within R
            (on_book (issue_token platform ttl_seconds random now) >>= λ t. persist >> next t)
    unfolding step
    issue-Within ttl_seconds random now next =
        call-Within rules (issues ttl_seconds random now) _ next (λ b. refl)

    receive-Within :
        (token : FriendToken) (now : ℕ) (next : PeerPub → Act B)
        → ((q : PeerPub) → Within R (next q))
        → Within R (on_book (receive platform token now) >>= λ q. persist >> next q)
    unfolding step
    receive-Within token now next = call-Within rules (receives token now) _ next (λ b. refl)

    accept-Within :
        (giver : Str) (entropy now : ℕ) (next : Str → Act B)
        → ((blob : Str) → Within R (next blob))
        → Within R (on_book (accept platform giver entropy now) >>= λ blob. persist >> next blob)
    unfolding step
    accept-Within giver entropy now next =
        call-Within rules (accepts giver entropy now) _ next (λ b. refl)

    confirm-Within :
        (blob : Str) (now : ℕ) (next : FriendRecord → Act B)
        → ((r : FriendRecord) → Within R (next r))
        → Within R (on_book (confirm platform blob now) >>= λ r. persist >> next r)
    unfolding step
    confirm-Within blob now next = call-Within rules (confirms blob now) _ next (λ b. refl)

    receive_revoke-Within :
        (notice : FriendRevoke) (next : FriendRecord → Act B)
        → ((r : FriendRecord) → Within R (next r))
        → Within R (on_book (receive_revoke platform notice) >>= λ r. persist >> next r)
    unfolding step
    receive_revoke-Within notice next =
        call-Within rules (receives_revoke notice) _ next (λ b. refl)

  pub get_friends_route-Within : Within R (get_friends_route rt cfg w req)
  unfolding get_friends_route
  get_friends_route-Within =
      seq-Within rules.order _ _ operator_only-Within
        (reading_then-Within rules.order _ _ (λ lists. give-Within rules.order _))

  pub token_route-Within : Within R (token_route rt cfg w req)
  unfolding token_route
  token_route-Within = seq-Within rules.order _ _ operator_only-Within (
      pure_then-Within rules.order _ _ (λ body. pure_then-Within rules.order _ _ (λ ttl.
        issue-Within _ _ _ _
          (λ token. pure_then-Within rules.order _ _ (λ invite. give-Within rules.order _)))))

  pub receive_route-Within : Within R (receive_route rt cfg w req)
  unfolding receive_route
  receive_route-Within = seq-Within rules.order _ _ operator_only-Within (
      pure_then-Within rules.order _ _ (λ body.
        pure_then-Within rules.order _ _
          (λ token. receive-Within _ _ _ (λ request. give-Within rules.order _))))

  pub accept_route-Within : Within R (accept_route rt cfg w req)
  unfolding accept_route
  accept_route-Within = seq-Within rules.order _ _ operator_only-Within (
      pure_then-Within rules.order _ _ (λ body. accept-Within _ _ _ _ (λ blob.
        reading_then-Within rules.order _ _ (λ wg0.
          bind-Within rules.order _ _ (deliver_if_any-Within rules cfg w _ _ _)
            (λ delivered. give-Within rules.order _)))))

  pub confirm_route-Within : Within R (confirm_route rt cfg w req)
  unfolding confirm_route
  confirm_route-Within = seq-Within rules.order _ _ operator_only-Within (
      pure_then-Within rules.order _ _ (λ body.
        pure_then-Within rules.order _ _
          (λ blob. confirm-Within _ _ _ (λ friend. give-Within rules.order _))))

  pub add_route-Within : Within R (add_route rt cfg w req)
  unfolding add_route
  add_route-Within = seq-Within rules.order _ _ operator_only-Within (
      seq-Within rules.order _ _ (pure-Within rules.order _) (
        pure_then-Within rules.order _ _ (λ body. pure_then-Within rules.order _ _ (λ entry.
          issue-Within _ _ _ _ (λ token.
            bind-Within rules.order _ _ (deliver-Within rules cfg w _ _ _)
              (λ delivered. give-Within rules.order _))))))

  pub request_route-Within : Within R (request_route rt cfg w req)
  unfolding request_route
  request_route-Within = pure_then-Within rules.order _ _ (λ body.
      pure_then-Within rules.order _ _
        (λ token. receive-Within _ _ _ (λ request. give-Within rules.order _)))

  pub accept_inbound_route-Within : Within R (accept_inbound_route rt cfg w req)
  unfolding accept_inbound_route
  accept_inbound_route-Within =
      pure_then-Within rules.order _ _
        (λ body. confirm-Within _ _ _ (λ friend. give-Within rules.order _))

  pub identity_route-Within : Within R (identity_route rt cfg w req)
  unfolding identity_route
  identity_route-Within = seq-Within rules.order _ _ operator_only-Within (
      reading_then-Within rules.order _ _
        (λ ctx. pure_then-Within rules.order _ _ (λ code. give-Within rules.order _)))

  pub revoke_inbound_route-Within : Within R (revoke_inbound_route rt cfg w req)
  unfolding revoke_inbound_route
  revoke_inbound_route-Within = pure_then-Within rules.order _ _ (λ body.
      pure_then-Within rules.order _ _
        (λ notice. receive_revoke-Within _ _ (λ removed. give-Within rules.order _)))

  issue_revoke-none :
      (peer : Str) (random : Bytes) (now : ℕ) (b b' : FriendBook)
      → issue_revoke platform peer random now b ≡ ok (none, b')
      → b' ≡ b
  unfolding issue_revoke
  issue_revoke-none peer random now b b' h = ground arith

  notify-Within : (r : Notice) → Within R (notify rt cfg w req r)
  unfolding notify
  notify-Within r =
      bind-Within rules.order _ _ (deliver_if_any-Within rules cfg w _ _ _)
        (λ delivered. give-Within rules.order _)

  -- A revocation that finds nobody leaves the book and does not write the disk.
  revoke-Within :
      (n : Node) (c : Call) (r : Result Thrown (Option Notice × FriendBook))
      → step platform n.ctx.book c ≡ after n.ctx.book r
      → ((b : FriendBook) → r ≡ ok (none, b) → b ≡ n.ctx.book)
      → R n (proceed (put_book n r) (tell_peer rt cfg w req)).1
  unfolding tell_peer give
  revoke-Within n c (ok (none, b)) e k = subst (λ b. R n (with_book n b)) (sym (k b refl)) (same n)
  revoke-Within n c (ok (some notice, b)) e k =
      persist-Within rules n (with_book n b) (notify rt cfg w req notice)
        (subst (λ b. R n (persisted (with_book n b))) e (call n c)) (notify-Within notice)
  revoke-Within n c (err x) e k = same n

  on_revoke-Within :
      (peer : Str)
      → Within R (on_book (issue_revoke platform peer w.random w.now) >>= tell_peer rt cfg w req)
  unfolding on_book ◌>>=◌ step
  on_revoke-Within peer n =
      revoke-Within n (issues_revoke peer w.random w.now)
        (issue_revoke platform peer w.random w.now n.ctx.book) refl
        (issue_revoke-none peer w.random w.now n.ctx.book)

  pub revoke_peer-Within : (segment : Str) → Within R (revoke_peer rt cfg w req segment)
  unfolding revoke_peer
  revoke_peer-Within segment = pure_then-Within rules.order _ _ (λ peer. on_revoke-Within peer)

  pub delete_friend_route-Within :
      (segment : Str) → Within R (delete_friend_route rt cfg w req segment)
  unfolding delete_friend_route
  delete_friend_route-Within segment =
      seq-Within rules.order _ _ operator_only-Within (revoke_peer-Within segment)
