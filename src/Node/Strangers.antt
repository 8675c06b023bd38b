-- ===== src/Node/Strangers.antt =====
-- What a request can do that carries none of the operator's credentials.
use vpn_pi.Common.{ℕ, ◌≡◌, refl, ◌∙◌, Bool, true, false, List, Str, str_eq, arith}
use vpn_pi.Errors.{Thrown}
use vpn_pi.Errors.Result.{Result, ok, err}
use vpn_pi.Auth.{operator_ok, manage_ok}
use vpn_pi.Daemon.{Request, is_operator, require_operator, require_admin}
use vpn_pi.Share.{Share}
use vpn_pi.Node.State.{
  Runtime, Config, World, Http, Node, Answer, Act, on_ctx, reading, give, ◌>>=◌, ◌>>◌,
}
use vpn_pi.Node.Friending.{
  operator_only, get_friends_route, token_route, receive_route, accept_route, confirm_route,
  add_route, identity_route, delete_friend_route,
}
use vpn_pi.Node.Status.{health_route, gate_route, home_route}
use vpn_pi.Node.Admin.{
  admin_only, admin_friends_route, delete_admin_friend_route, first_run_route, canary_route,
  gate_log_route, gate_close_route, gate_open_route, mint_route,
}
use vpn_pi.Node.Mail.{thread_route, send_route}
use vpn_pi.Node.Files.{
  put_share, on_share, member, list_route, upload_route, download_route, delete_file_route,
}
use vpn_pi.Node.Routes.{
  Route, get_health, get_home, get_gate, get_admin_friends, delete_admin_friend, get_first_run,
  post_canary, get_gate_log, post_gate_close, post_gate_open, post_mint, get_friends, post_token,
  post_receive, post_accept, post_confirm, post_add, post_request, post_accept_inbound,
  get_identity, delete_friend, post_revoke_inbound, get_messages, post_message,
  post_message_inbound, get_files, post_file, get_download, delete_file, get_page, no_route, handle,
  route_of, serve,
}
use vpn_pi.Node.Within.{
  IsOrder, Within, bind-Within, seq-Within, give-Within, pure_then-Within, reading_then-Within,
  branch-Within,
}

-- The book, the messages, the gate, the disk and what was sent to peers are as they were.
pub record IsUntouched (n m : Node) : Type 0 where
  pub book : m.ctx.book ≡ n.ctx.book
  pub messages : m.messages ≡ n.messages
  pub gate : m.gate ≡ n.gate
  pub disk : m.disk ≡ n.disk
  pub sent : m.sent ≡ n.sent

pub IsUntouched-IsOrder : IsOrder IsUntouched
IsUntouched-IsOrder = record {
  same = λ n. record { book = refl; messages = refl; gate = refl; disk = refl; sent = refl };
  then_also = λ a b c h k. record {
    book = k.book ∙ h.book;
    messages = k.messages ∙ h.messages;
    gate = k.gate ∙ h.gate;
    disk = k.disk ∙ h.disk;
    sent = k.sent ∙ h.sent;
  };
}

module _ (sha256 : Str → List ℕ) (now pushed : ℕ) {B : Type 0} (next : Act B) where
  pub operator-refuses :
      (n : Node) (req : Request)
      → is_operator sha256 req n.ctx ≡ false
      → IsUntouched n ((on_ctx (require_operator sha256 req now pushed) >> next) n).1
  unfolding on_ctx ◌>>◌ require_operator
  operator-refuses n req h = ground arith

  pub admin-refuses :
      (n : Node) (req : Request)
      → is_operator sha256 req n.ctx ≡ false
      → IsUntouched n ((on_ctx (require_admin sha256 req now pushed) >> next) n).1
  unfolding on_ctx ◌>>◌ require_admin is_operator manage_ok operator_ok
  admin-refuses n req h = ground arith

-- The inbound routes, where a signature is the guard.
unfoldable pub is_inbound : Route → Bool
is_inbound post_request = true
is_inbound post_accept_inbound = true
is_inbound post_revoke_inbound = true
is_inbound post_message_inbound = true
is_inbound _ = false

module _ (rt : Runtime) (cfg : Config) (w : World) (req : Http) where
  Calm : Act Answer → Type 0
  Calm f = Within IsUntouched f

  first_run_route-Calm : Calm (first_run_route rt cfg w req)
  unfolding Calm first_run_route
  first_run_route-Calm n = ground arith

  put_share-Untouched {ℓ} :
      {A : Type ℓ} (n : Node) (r : Result Thrown (A × Share)) → IsUntouched n (put_share n r).1
  put_share-Untouched n (ok (a, s)) = record {
    book = refl;
    messages = refl;
    gate = refl;
    disk = refl;
    sent = refl;
  }
  put_share-Untouched n (err e) = IsUntouched-IsOrder.same n

  on_share-Untouched {ℓ} :
      {A : Type ℓ} (operation : Share → Result Thrown (A × Share))
      → Within IsUntouched (on_share operation)
  unfolding on_share
  on_share-Untouched operation n = put_share-Untouched n (operation n.share)

  member-Untouched : Within IsUntouched (member rt cfg w req)
  unfolding member
  member-Untouched n = IsUntouched-IsOrder.same n

  list_route-Calm : Calm (list_route rt cfg w req)
  unfolding Calm list_route
  list_route-Calm = bind-Within IsUntouched-IsOrder _ _ member-Untouched (λ node.
      reading_then-Within IsUntouched-IsOrder _ _ (λ files. give-Within IsUntouched-IsOrder _))

  upload_route-Calm : Calm (upload_route rt cfg w req)
  unfolding Calm upload_route
  upload_route-Calm = bind-Within IsUntouched-IsOrder _ _ member-Untouched (λ node.
      pure_then-Within IsUntouched-IsOrder _ _ (λ file.
        branch-Within IsUntouched-IsOrder _ _ _ (give-Within IsUntouched-IsOrder _) (
          bind-Within IsUntouched-IsOrder _ _ (on_share-Untouched _)
            (λ added. give-Within IsUntouched-IsOrder _))))

  download_route-Calm : (id : ℕ) → Calm (download_route rt cfg w req id)
  unfolding Calm download_route
  download_route-Calm id = bind-Within IsUntouched-IsOrder _ _ member-Untouched (λ node.
      bind-Within IsUntouched-IsOrder _ _ (on_share-Untouched _)
        (λ file. give-Within IsUntouched-IsOrder _))

  delete_file_route-Calm : (id : ℕ) → Calm (delete_file_route rt cfg w req id)
  unfolding Calm delete_file_route
  delete_file_route-Calm id = bind-Within IsUntouched-IsOrder _ _ member-Untouched (λ node.
      seq-Within IsUntouched-IsOrder _ _ (on_share-Untouched _) (give-Within IsUntouched-IsOrder _))

  -- Minting is open with --mock only, where every request is the operator's.
  mint_route-refuses :
      (n : Node)
      → is_operator rt.sha256 req.guard n.ctx ≡ false
      → IsUntouched n (mint_route rt cfg w req n).1
  unfolding mint_route is_operator manage_ok operator_ok reading ◌>>=◌ give
  mint_route-refuses n h = ground arith

  module _ (n : Node) (h : is_operator rt.sha256 req.guard n.ctx ≡ false) where
    guarded : (next : Act Answer) → IsUntouched n ((operator_only rt cfg w req >> next) n).1
    unfolding operator_only
    guarded next = operator-refuses rt.sha256 w.now w.pushed next n req.guard h

    guarded_admin : (next : Act Answer) → IsUntouched n ((admin_only rt cfg w req >> next) n).1
    unfolding admin_only
    guarded_admin next = admin-refuses rt.sha256 w.now w.pushed next n req.guard h

    handle-refuses : (r : Route) → is_inbound r ≡ false → IsUntouched n (handle rt cfg w req r n).1
    unfolding handle Calm is_inbound health_route gate_route home_route admin_friends_route
        delete_admin_friend_route canary_route gate_log_route gate_close_route gate_open_route
        get_friends_route token_route receive_route accept_route confirm_route add_route
        identity_route delete_friend_route thread_route send_route
    handle-refuses get_health e =
        reading_then-Within IsUntouched-IsOrder _ _ (λ seen. give-Within IsUntouched-IsOrder _) n
    handle-refuses get_home e = guarded _
    handle-refuses get_gate e =
        reading_then-Within IsUntouched-IsOrder _ _ (λ seen. give-Within IsUntouched-IsOrder _) n
    handle-refuses get_admin_friends e = guarded_admin _
    handle-refuses (delete_admin_friend segment) e = guarded_admin _
    handle-refuses get_first_run e = first_run_route-Calm n
    handle-refuses post_canary e = guarded_admin _
    handle-refuses get_gate_log e = guarded_admin _
    handle-refuses post_gate_close e = guarded_admin _
    handle-refuses post_gate_open e = guarded _
    handle-refuses post_mint e = mint_route-refuses n h
    handle-refuses get_friends e = guarded _
    handle-refuses post_token e = guarded _
    handle-refuses post_receive e = guarded _
    handle-refuses post_accept e = guarded _
    handle-refuses post_confirm e = guarded _
    handle-refuses post_add e = guarded _
    handle-refuses post_request e = absurd (cc)
    handle-refuses post_accept_inbound e = absurd (cc)
    handle-refuses get_identity e = guarded _
    handle-refuses (delete_friend segment) e = guarded _
    handle-refuses post_revoke_inbound e = absurd (cc)
    handle-refuses get_messages e = guarded _
    handle-refuses post_message e = guarded _
    handle-refuses post_message_inbound e = absurd (cc)
    handle-refuses get_files e = list_route-Calm n
    handle-refuses post_file e = upload_route-Calm n
    handle-refuses (get_download id) e = download_route-Calm id n
    handle-refuses (delete_file id) e = delete_file_route-Calm id n
    handle-refuses get_page e = give-Within IsUntouched-IsOrder _ n
    handle-refuses no_route e = give-Within IsUntouched-IsOrder _ n

  -- A request that carries none of the operator's credentials, to any route of `Node.Routes` but
  -- the four inbound ones (a friend request, its acceptance, a revocation and a message, which are
  -- signed), changes neither the friend book, nor the messages, nor the gate, nor the three files
  -- of `persist`, and makes the node deliver nothing to a peer. It may still change the limiter,
  -- the share (as a friend) and who waits for the first-run token, and make the node ask the gate
  -- node for its status; the routes of the registry and of the event collector are not among these.
  pub stranger-IsUntouched :
      (n : Node)
      → is_operator rt.sha256 req.guard n.ctx ≡ false
      → is_inbound (route_of req) ≡ false
      → IsUntouched n (serve rt cfg w req n).1
  unfolding serve
  stranger-IsUntouched n h e = handle-refuses n h (route_of req) e
