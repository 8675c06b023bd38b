-- ===== src/Node/Mail.antt =====
-- main.ts, lines 828 to 857: the routes of the messages, and `thread` of core/messages.ts.
use vpn_pi.Common.{
  Bool, true, not, none, List, [], ◌∷◌, map, Str, lit, str_eq, ◌==◌, get_or, if◌then◌else◌,
}
use vpn_pi.Common.Maps
use vpn_pi.Errors.{friend_error, invalid_request, not_a_friend}
use vpn_pi.Errors.Result.{ok, or_throw, ensure}
use vpn_pi.Json.{bool, str, arr, property, text_or_undefined}
use vpn_pi.Canary.{text_or_empty}
use vpn_pi.Friends.Book.{friend, verify_key_resolver}
use vpn_pi.Messages.{MessageBook, StoredMessage, outgoing, append, seal_message, receive_message}
use vpn_pi.Node.State.{
  Runtime, Config, World, Http, Answer, Act, json, give, pure, reading, on_messages, persist,
  deliver, ◌>>=◌, ◌>>◌,
}
use vpn_pi.Node.Json.{object, items, message_json}
use vpn_pi.Node.Friending.{operator_only, body_of}

-- A stable sort by the texts of the times; `leb_text a b` is `a.localeCompare(b) <= 0`.
module _ (leb_text : Str → Str → Bool) where
  unfoldable pub insert_message : StoredMessage → List StoredMessage → List StoredMessage
  insert_message m [] = m ∷ []
  insert_message m (k ∷ ms) =
      let rest = insert_message m ms in
      if leb_text m.message.ts k.message.ts then m ∷ k ∷ ms else k ∷ rest

  unfoldable pub sort_messages : List StoredMessage → List StoredMessage
  sort_messages [] = []
  sort_messages (m ∷ ms) = insert_message m (sort_messages ms)

  unfoldable pub thread : (peer : Str) → MessageBook → List StoredMessage
  thread peer b = sort_messages (get_or (Maps.get peer b.logs) [])

module _ (rt : Runtime) (cfg : Config) (w : World) (req : Http) where
  open rt use {platform, locale_leb}

  unfoldable pub thread_route : Act Answer
  thread_route = do
    operator_only rt cfg w req
    pure (ensure (not (get_or req.peer_query [] == [])) (friend_error invalid_request))
    messages ← reading (λ n. thread locale_leb (get_or req.peer_query []) n.messages)
    give (json 200 (object ((lit "thread", arr (items (map message_json messages))) ∷ [])))

  abbrev sent_message : (self_ed peer text : Str) → StoredMessage
  sent_message self_ed peer text = record {
    message = record {
      id = none;
      sender = self_ed;
      to = peer;
      body = text;
      ts = platform.iso_date w.now;
    };
    dir = outgoing;
  }

  unfoldable pub send_route : Act Answer
  send_route = do
    operator_only rt cfg w req
    body ← body_of rt cfg w req
    let peer = text_or_undefined (property (lit "peer") body)
    let text = text_or_empty (property (lit "body") body)
    found ← reading (λ n. friend peer n.ctx.book)
    r ← pure (or_throw found (friend_error not_a_friend))
    ctx ← reading (λ n. n.ctx)
    blob ← pure (seal_message platform ctx.book.id r.peer text w.uuid w.entropy w.now)
    on_messages (λ m. (ok tt, append peer (sent_message ctx.self_ed peer text) m))
    persist
    delivered ←
        deliver cfg w r.peer.wg0 (lit "/api/messages/inbound")
          (object ((lit "blob", str blob) ∷ []))
    give (json 200 (object ((lit "ok", bool true) ∷ (lit "delivered", bool delivered) ∷ [])))

  unfoldable pub message_inbound_route : Act Answer
  message_inbound_route = do
    body ← body_of rt cfg w req
    book ← reading (λ n. n.ctx.book)
    verify ← pure (verify_key_resolver platform book)
    on_messages (
        receive_message platform book.id (text_or_undefined (property (lit "blob") body)) verify
          w.now)
    persist
    give (json 200 (object ((lit "ok", bool true) ∷ [])))
