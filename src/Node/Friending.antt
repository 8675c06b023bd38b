-- ===== src/Node/Friending.antt =====
-- main.ts, lines 722 to 829: the routes of the friend book.
use vpn_pi.Common.{true, not, Option, none, some, [], ◌∷◌, Str, lit, str_eq, ◌==◌, if◌then◌else◌}
use vpn_pi.Errors.{Thrown, friend_error, other_error, invalid_request}
use vpn_pi.Errors.Result.{Result, ok, or_throw, ensure}
use vpn_pi.Json.{Json, bool, str, property, text_or_undefined}
use vpn_pi.Codec.{to_b64}
use vpn_pi.Friends.Wire.{FriendToken, peer_pub_json}
use vpn_pi.Friends.Book.{
  FriendRecord, Notice, issue_token, receive, accept, confirm, issue_revoke, receive_revoke, friend,
}
use vpn_pi.FriendCode.{encode_invite, decode_invite}
use vpn_pi.Registry.{encode_reply, decode_reply, fingerprint, resolve}
use vpn_pi.Daemon.{require_operator}
use vpn_pi.Sysinfo.Lines.{is_truthy}
use vpn_pi.Node.State.{
  Runtime, Config, World, Http, Answer, Act, json, plain, give, pure, reading, on_book, on_ctx,
  persist, deliver, deliver_if_any, ◌>>=◌, ◌>>◌,
}
use vpn_pi.Node.Bodies.{read_json, token_of_json, revoke_of_json, ttl_of}
use vpn_pi.Node.Json.{object, token_json, notice_json, friend_json, friends_json}

abbrev pub wg0_of : Option FriendRecord → Str
wg0_of none = []
wg0_of (some r) = r.peer.wg0

module _ (rt : Runtime) (cfg : Config) (w : World) (req : Http) where
  open rt use {platform, sha256, parse_text, decode_uri, to_upper, utf8_encode, utf8_decode}

  unfoldable pub operator_only : Act (Unit {0})
  operator_only = on_ctx (require_operator sha256 req.guard w.now w.pushed)

  abbrev pub body_of : Act Json
  body_of = pure (read_json parse_text req)

  unfoldable pub get_friends_route : Act Answer
  get_friends_route = do
    operator_only
    lists ← reading (λ n. friends_json n.ctx.book)
    give (json 200 lists)

  unfoldable pub token_route : Act Answer
  token_route = do
    operator_only
    body ← body_of
    ttl ← pure (ttl_of (property (lit "ttlSeconds") body))
    token ← on_book (issue_token platform ttl w.random w.now)
    persist
    invite ← pure (encode_invite platform utf8_encode utf8_decode token)
    give (json 200 (object ((lit "invite", str invite) ∷ [])))

  -- An invite code, or a token itself.
  unfoldable pub token_of_body : Json → Result Thrown FriendToken
  token_of_body body =
      if is_truthy (property (lit "invite") body)
      then decode_invite platform utf8_encode utf8_decode
          (text_or_undefined (property (lit "invite") body))
      else token_of_json (property (lit "token") body)

  unfoldable pub receive_route : Act Answer
  receive_route = do
    operator_only
    body ← body_of
    token ← pure (token_of_body body)
    request ← on_book (receive platform token w.now)
    persist
    give (json 200 (object ((lit "request", peer_pub_json request) ∷ [])))

  unfoldable pub accept_route : Act Answer
  accept_route = do
    operator_only
    body ← body_of
    let giver = text_or_undefined (property (lit "giver") body)
    blob ← on_book (accept platform giver w.entropy w.now)
    persist
    wg0 ← reading (λ n. wg0_of (friend giver n.ctx.book))
    delivered ←
        deliver_if_any cfg w wg0 (lit "/api/friends/accept-inbound")
          (object ((lit "accept", str blob) ∷ []))
    give (
        json 200 (
          object ((lit "reply", str (encode_reply blob)) ∷ (lit "delivered", bool delivered) ∷ [])))

  -- A pasted reply, or an accept itself.
  unfoldable pub accept_of_body : Json → Result Thrown Str
  accept_of_body body =
      if is_truthy (property (lit "reply") body)
      then or_throw (decode_reply (text_or_undefined (property (lit "reply") body))) other_error
      else ok (text_or_undefined (property (lit "accept") body))

  unfoldable pub confirm_route : Act Answer
  confirm_route = do
    operator_only
    body ← body_of
    blob ← pure (accept_of_body body)
    r ← on_book (confirm platform blob w.now)
    persist
    give (json 200 (object ((lit "friend", friend_json r) ∷ [])))

  unfoldable pub add_route : Act Answer
  add_route = do
    operator_only
    pure (ensure (not (cfg.registry_url == [])) (friend_error invalid_request))
    body ← body_of
    entry ←
        pure (resolve platform to_upper w.registry (text_or_undefined (property (lit "code") body)))
    token ← on_book (issue_token platform 86400 w.random w.now)
    persist
    sent ←
        deliver cfg w entry.wg0 (lit "/api/friends/request")
          (object ((lit "token", token_json token) ∷ []))
    give (
        json 200 (
          object
            ((lit "ok", bool true) ∷ (lit "sent", bool sent) ∷ (lit "to", str entry.label) ∷ [])))

  unfoldable pub request_route : Act Answer
  request_route = do
    body ← body_of
    token ← pure (token_of_json (property (lit "token") body))
    request ← on_book (receive platform token w.now)
    persist
    give (json 200 (object ((lit "ok", bool true) ∷ (lit "from", str request.label) ∷ [])))

  unfoldable pub accept_inbound_route : Act Answer
  accept_inbound_route = do
    body ← body_of
    r ← on_book (confirm platform (text_or_undefined (property (lit "accept") body)) w.now)
    persist
    give (json 200 (object ((lit "ok", bool true) ∷ (lit "friend", str r.peer.label) ∷ [])))

  unfoldable pub identity_route : Act Answer
  identity_route = do
    operator_only
    ctx ← reading (λ n. n.ctx)
    code ← pure (fingerprint platform to_upper ctx.self_ed)
    give (
        json 200 (
          object (
            (lit "code", str code)
            ∷ (lit "ed25519", str ctx.self_ed)
            ∷ (lit "x25519", str (to_b64 platform ctx.book.id.x_public))
            ∷ (lit "label", str ctx.book.label)
            ∷ (lit "wg0", str ctx.book.wg0)
            ∷ [])))

  unfoldable pub notify : Notice → Act Answer
  notify r = do
    delivered ←
        deliver_if_any cfg w r.wg0 (lit "/api/friends/revoke-inbound")
          (object ((lit "notice", notice_json r.notice) ∷ []))
    give (json 200 (object ((lit "ok", bool true) ∷ (lit "peer_notified", bool delivered) ∷ [])))

  -- What both revoking routes do once the guard has passed.
  unfoldable pub tell_peer : Option Notice → Act Answer
  tell_peer none = give (plain 404 (lit "no such friend"))
  tell_peer (some r) = do persist; notify r

  unfoldable pub revoke_peer : (segment : Str) → Act Answer
  unfolding tell_peer
  revoke_peer segment = do
    peer ← pure (or_throw (decode_uri segment) other_error)
    r ← on_book (issue_revoke platform peer w.random w.now)
    tell_peer r

  unfoldable pub delete_friend_route : (segment : Str) → Act Answer
  delete_friend_route segment = do operator_only; revoke_peer segment

  unfoldable pub revoke_inbound_route : Act Answer
  revoke_inbound_route = do
    body ← body_of
    notice ← pure (revoke_of_json (property (lit "notice") body))
    removed ← on_book (receive_revoke platform notice)
    persist
    give (json 200 (object ((lit "ok", bool true) ∷ (lit "removed", str removed.peer.label) ∷ [])))
