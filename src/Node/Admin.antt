-- ===== src/Node/Admin.antt =====
-- main.ts, lines 587 to 719: the routes of the administrator.
use vpn_pi.Common.{
  ℕ, ◌+◌, ◌-◌, Bool, true, not, ◌&&◌, ◌||◌, Option, none, some, [], ◌∷◌, ◌++◌, map, Str, lit,
  str_eq, ◌==◌, nat_eq, ltb, leb, length, trim, get_or, if◌then◌else◌,
}
use vpn_pi.Errors.{friend_error, other_error, invalid_request}
use vpn_pi.Errors.Result.{ok, err, or_throw, ensure}
use vpn_pi.Json.{Json, null, str, arr, nil, property, text_or_undefined, decimal}
use vpn_pi.Codec.{to_b64}
use vpn_pi.Identity.{Identity}
use vpn_pi.Canary.{Canary, text_or_empty, make_canary, verify_canary}
use vpn_pi.Gate.{Gate}
use vpn_pi.Gate
use vpn_pi.Daemon.{require_admin}
use vpn_pi.Errors.{canary_error}
use vpn_pi.Node.State.{
  Runtime, Config, AdminApp, World, Http, Node, Answer, Act, json, plain, waits, give, pure,
  reading, on_ctx, on_gate, ◌>>=◌, ◌>>◌,
}
use vpn_pi.Node.Json.{object, items, log_json, friends_json}
use vpn_pi.Node.Friending.{operator_only, revoke_peer, body_of}
use vpn_pi.Node.Status.{target_of, json_or}

-- The end of a removal that a visitor waits for: the visitor gets the token, whether or not the
-- marker was removed.
unfoldable pub revealed : Node → Option Json
revealed n =
    if n.revealing == 0
    then none
    else some (object ((lit "token", str n.ctx.credentials.admin_token) ∷ []))

unfoldable pub unlink_marker : (removed : Bool) → Node → Node
unlink_marker removed n =
    if n.revealing == 0
    then n
    else record n { revealing = n.revealing - 1; first_run = n.first_run && not removed }

module _ (rt : Runtime) (cfg : Config) (w : World) (req : Http) where
  open rt use {platform, sha256, parse_text, to_whole}

  unfoldable pub admin_only : Act (Unit {0})
  admin_only = on_ctx (require_admin sha256 req.guard w.now w.pushed)

  unfoldable pub admin_friends_route : Act Answer
  admin_friends_route = do
    admin_only
    lists ← reading (λ n. friends_json n.ctx.book)
    give (json 200 lists)

  unfoldable pub delete_admin_friend_route : (segment : Str) → Act Answer
  delete_admin_friend_route segment = do admin_only; revoke_peer rt cfg w req segment

  abbrev pub hides_token : Node → Bool
  hides_token n = n.ctx.credentials.admin_token == [] || n.ctx.credentials.mock || not n.first_run

  -- Up to the `await` of the marker's removal, where other requests may come in between.
  unfoldable pub first_run_route : Act Answer
  first_run_route n =
      if hides_token n
      then (ok (json 200 (object ((lit "token", null) ∷ []))), n)
      else (ok waits, record n { revealing = n.revealing + 1 })

  -- Up to the question to the model; a nonce that was used throws.
  abbrev pub open_gate : Canary → Act (Unit {0})
  open_gate c n =
      let (g, fresh) = Gate.open_request c w.now n.gate in
      (if fresh then ok tt else err canary_error, record n { gate = g })

  unfoldable pub canary_route : Act Answer
  canary_route = do
    admin_only
    body ← body_of rt cfg w req
    id ← reading (λ n. n.ctx.book.id)
    c ← pure (
        verify_canary platform id (text_or_undefined (property (lit "blob") body)) cfg.admin_keys
          cfg.canary_keyword cfg.canary_freshness_s w.now)
    open_gate c
    give waits

  -- The gate node's answer to a forwarded request; `none` is a request that could not be sent.
  abbrev relayed : Option Json × ℕ → Answer
  relayed (body, status) = json (if leb 200 status && ltb status 300 then 200 else status) (
      json_or body (object ((lit "error", str (lit "gate node returned " ++ decimal status)) ∷ [])))

  abbrev pub forward : Act Answer
  forward = pure (elim w.forwarded [ none ↦ err other_error | some r ↦ ok (relayed r) ])

  abbrev empty_log : Json
  empty_log = object ((lit "log", arr nil) ∷ [])

  abbrev relayed_log : Option (Option Json × ℕ) → Answer
  relayed_log none = json 200 empty_log
  relayed_log (some (body, status)) =
      json (if leb 200 status && ltb status 300 then 200 else status) (get_or body empty_log)

  unfoldable pub gate_log_route : Act Answer
  gate_log_route = do
    admin_only
    log ← reading (λ n. arr (items (map (log_json platform.iso_date) n.gate.log)))
    (if target_of cfg.admin_app == []
        then give (json 200 (object ((lit "log", log) ∷ [])))
        else give (relayed_log w.forwarded))

  abbrev pub close_here : Act Answer
  close_here = do on_gate (Gate.close_request (lit "manual (admin)") w.now); give waits

  unfoldable pub gate_close_route : Act Answer
  gate_close_route = do admin_only; (if target_of cfg.admin_app == [] then close_here else forward)

  abbrev pub open_remote : Option AdminApp → Act Answer
  open_remote none =
      give (plain 404 (lit "not an admin app (set ISLAND_ADMIN_KEY_DIR + ISLAND_GATE_TARGET*)"))
  open_remote (some a) = do
    pure (
        ensure (not (a.target == []) && not (a.target_x25519 == [])) (friend_error invalid_request))
    body ← body_of rt cfg w req
    let reason = trim (text_or_empty (property (lit "text") body))
    pure (ensure (leb 3 (length reason)) (friend_error invalid_request))
    blob ← pure (
        or_throw
          (make_canary platform a.identity cfg.canary_keyword
            (cfg.canary_keyword ++ (lit " " ++ reason)) a.target_x25519 w.random w.entropy w.now)
          other_error)
    forward

  unfoldable pub gate_open_route : Act Answer
  gate_open_route = do operator_only rt cfg w req; open_remote cfg.admin_app

  abbrev pub mint : Bool → Option Identity → Act Answer
  mint true (some admin) = do
    body ← body_of rt cfg w req
    id ← reading (λ n. n.ctx.book.id)
    let text = text_or_undefined (
        some
          (json_or (property (lit "text") body) (str (cfg.canary_keyword ++ lit " open the gate"))))
    blob ← pure (
        or_throw
          (make_canary platform admin cfg.canary_keyword text (to_b64 platform id.x_public) w.random
            w.entropy w.now)
          other_error)
    give (json 200 (object ((lit "blob", str blob) ∷ [])))
  mint mock admin = give (plain 404 (lit "not found"))

  unfoldable pub mint_route : Act Answer
  mint_route = do mock ← reading (λ n. n.ctx.credentials.mock); mint mock cfg.mock_admin
