-- ===== src/Node/Handled.antt =====
-- Every request to main.ts makes only the changes of `Respects`.
use vpn_pi.Common.{ℕ, Str}
use vpn_pi.Errors.{Thrown}
use vpn_pi.Errors.Result.{Result, ok, err}
use vpn_pi.Share.{Share}
use vpn_pi.Node.State.{Runtime, Config, World, Http, Upload, Node}
use vpn_pi.Node.Mail.{thread_route, send_route, message_inbound_route}
use vpn_pi.Node.Files.{
  put_share, on_share, member, list_route, store, upload_route, download_route, delete_file_route,
}
use vpn_pi.Node.Routes.{
  Route, get_health, get_home, get_gate, get_admin_friends, delete_admin_friend, get_first_run,
  post_canary, get_gate_log, post_gate_close, post_gate_open, post_mint, get_friends, post_token,
  post_receive, post_accept, post_confirm, post_add, post_request, post_accept_inbound,
  get_identity, delete_friend, post_revoke_inbound, get_messages, post_message,
  post_message_inbound, get_files, post_file, get_download, delete_file, get_page, no_route, handle,
  route_of, serve,
}
use vpn_pi.Node.Within.{
  Respects, Within, bind-Within, seq-Within, branch-Within, pure-Within, give-Within, mail-Within,
  deliver-Within, pure_then-Within, reading_then-Within,
}
use vpn_pi.Node.BookHandled.{
  operator_only-Within, get_friends_route-Within, token_route-Within, receive_route-Within,
  accept_route-Within, confirm_route-Within, add_route-Within, request_route-Within,
  accept_inbound_route-Within, identity_route-Within, revoke_inbound_route-Within,
  delete_friend_route-Within,
}
use vpn_pi.Node.AdminHandled.{
  health_route-Within, gate_route-Within, home_route-Within, admin_friends_route-Within,
  delete_admin_friend_route-Within, first_run_route-Within, canary_route-Within,
  gate_log_route-Within, gate_close_route-Within, gate_open_route-Within, mint_route-Within,
}

module _ (rt : Runtime) (cfg : Config) (w : World) (req : Http) {R : Node → Node → Type 0}
    (rules : Respects rt.platform R) where
  open rules use {same, sharing}

  pub thread_route-Within : Within R (thread_route rt cfg w req)
  unfolding thread_route
  thread_route-Within = seq-Within rules.order _ _ (operator_only-Within rt cfg w req rules) (
      seq-Within rules.order _ _ (pure-Within rules.order _)
        (reading_then-Within rules.order _ _ (λ messages. give-Within rules.order _)))

  pub send_route-Within : Within R (send_route rt cfg w req)
  unfolding send_route
  send_route-Within = seq-Within rules.order _ _ (operator_only-Within rt cfg w req rules) (
      pure_then-Within rules.order _ _ (λ body. reading_then-Within rules.order _ _ (λ found.
        pure_then-Within rules.order _ _ (λ r. reading_then-Within rules.order _ _ (λ ctx.
          pure_then-Within rules.order _ _ (λ blob. mail-Within rules _ _ (
            bind-Within rules.order _ _ (deliver-Within rules cfg w _ _ _)
              (λ delivered. give-Within rules.order _))))))))

  pub message_inbound_route-Within : Within R (message_inbound_route rt cfg w req)
  unfolding message_inbound_route
  message_inbound_route-Within = pure_then-Within rules.order _ _ (λ body.
      reading_then-Within rules.order _ _ (λ book.
        pure_then-Within rules.order _ _
          (λ verify. mail-Within rules _ _ (give-Within rules.order _))))

  put_share-Within {ℓ} :
      {A : Type ℓ} (n : Node) (r : Result Thrown (A × Share)) → R n (put_share n r).1
  put_share-Within n (ok (a, s)) = sharing n s
  put_share-Within n (err e) = same n

  on_share-Within {ℓ} :
      {A : Type ℓ} (operation : Share → Result Thrown (A × Share)) → Within R (on_share operation)
  unfolding on_share
  on_share-Within operation n = put_share-Within n (operation n.share)

  member-Within : Within R (member rt cfg w req)
  unfolding member
  member-Within n = same n

  pub list_route-Within : Within R (list_route rt cfg w req)
  unfolding list_route
  list_route-Within =
      bind-Within rules.order _ _ member-Within
        (λ node. reading_then-Within rules.order _ _ (λ files. give-Within rules.order _))

  store-Within : (node : Str) (file : Upload) → Within R (store rt cfg w req node file)
  store-Within node file =
      bind-Within rules.order _ _ (on_share-Within _) (λ added. give-Within rules.order _)

  pub upload_route-Within : Within R (upload_route rt cfg w req)
  unfolding upload_route
  upload_route-Within = bind-Within rules.order _ _ member-Within (λ node.
      pure_then-Within rules.order _ _ (λ file.
        branch-Within rules.order _ _ _ (give-Within rules.order _) (store-Within node file)))

  pub download_route-Within : (id : ℕ) → Within R (download_route rt cfg w req id)
  unfolding download_route
  download_route-Within id =
      bind-Within rules.order _ _ member-Within (λ node.
        bind-Within rules.order _ _ (on_share-Within _) (λ file. give-Within rules.order _))

  pub delete_file_route-Within : (id : ℕ) → Within R (delete_file_route rt cfg w req id)
  unfolding delete_file_route
  delete_file_route-Within id =
      bind-Within rules.order _ _ member-Within
        (λ node. seq-Within rules.order _ _ (on_share-Within _) (give-Within rules.order _))

  pub handle-Within : (r : Route) → Within R (handle rt cfg w req r)
  unfolding handle
  handle-Within get_health = health_route-Within rt cfg w req rules _ _
  handle-Within get_home = home_route-Within rt cfg w req rules
  handle-Within get_gate = gate_route-Within rt cfg w req rules
  handle-Within get_admin_friends = admin_friends_route-Within rt cfg w req rules
  handle-Within (delete_admin_friend s) = delete_admin_friend_route-Within rt cfg w req rules s
  handle-Within get_first_run = first_run_route-Within rt cfg w req rules
  handle-Within post_canary = canary_route-Within rt cfg w req rules
  handle-Within get_gate_log = gate_log_route-Within rt cfg w req rules
  handle-Within post_gate_close = gate_close_route-Within rt cfg w req rules
  handle-Within post_gate_open = gate_open_route-Within rt cfg w req rules
  handle-Within post_mint = mint_route-Within rt cfg w req rules
  handle-Within get_friends = get_friends_route-Within rt cfg w req rules
  handle-Within post_token = token_route-Within rt cfg w req rules
  handle-Within post_receive = receive_route-Within rt cfg w req rules
  handle-Within post_accept = accept_route-Within rt cfg w req rules
  handle-Within post_confirm = confirm_route-Within rt cfg w req rules
  handle-Within post_add = add_route-Within rt cfg w req rules
  handle-Within post_request = request_route-Within rt cfg w req rules
  handle-Within post_accept_inbound = accept_inbound_route-Within rt cfg w req rules
  handle-Within get_identity = identity_route-Within rt cfg w req rules
  handle-Within (delete_friend s) = delete_friend_route-Within rt cfg w req rules s
  handle-Within post_revoke_inbound = revoke_inbound_route-Within rt cfg w req rules
  handle-Within get_messages = thread_route-Within
  handle-Within post_message = send_route-Within
  handle-Within post_message_inbound = message_inbound_route-Within
  handle-Within get_files = list_route-Within
  handle-Within post_file = upload_route-Within
  handle-Within (get_download id) = download_route-Within id
  handle-Within (delete_file id) = delete_file_route-Within id
  handle-Within get_page = give-Within rules.order _
  handle-Within no_route = give-Within rules.order _

  pub serve-Within : (n : Node) → R n (serve rt cfg w req n).1
  unfolding serve
  serve-Within n = handle-Within (route_of req) n
