-- ===== src/Node/AdminHandled.antt =====
-- Every handler of the administrator and of the status (main.ts) makes only the changes of
-- `Respects`.
use vpn_pi.Common.{Bool, true, false, Option, none, some, Str, str_eq, Bool-cases, inl, inr, arith}
use vpn_pi.Identity.{Identity}
use vpn_pi.Canary.{Canary}
use vpn_pi.Gate.{Gate}
use vpn_pi.Node.State.{Runtime, Config, AdminApp, World, Http, Node, on_gate}
use vpn_pi.Node.Status.{health_route, gate_route, home_route}
use vpn_pi.Node.Admin.{
  admin_only, admin_friends_route, delete_admin_friend_route, first_run_route, hides_token,
  open_gate, canary_route, gate_log_route, gate_close_route, open_remote, gate_open_route, mint,
  mint_route,
}
use vpn_pi.Node.Within.{
  Respects, Within, seq-Within, branch-Within, pure-Within, give-Within, pure_then-Within,
  reading_then-Within, require_admin-Within,
}
use vpn_pi.Node.BookHandled.{operator_only-Within, revoke_peer-Within}

module _ (rt : Runtime) (cfg : Config) (w : World) (req : Http) {R : Node → Node → Type 0}
    (rules : Respects rt.platform R) where
  open rules use {same, gating, visiting}

  admin_only-Within : Within R (admin_only rt cfg w req)
  unfolding admin_only
  admin_only-Within = require_admin-Within rules rt.sha256 req.guard w.now w.pushed

  pub health_route-Within :
      (version : Str) (events : Bool) → Within R (health_route rt cfg w req version events)
  unfolding health_route
  health_route-Within version events =
      reading_then-Within rules.order _ _ (λ mock. give-Within rules.order _)

  pub gate_route-Within : Within R (gate_route rt cfg w req)
  unfolding gate_route
  gate_route-Within = reading_then-Within rules.order _ _ (λ view. give-Within rules.order _)

  pub home_route-Within : Within R (home_route rt cfg w req)
  unfolding home_route
  home_route-Within = seq-Within rules.order _ _ (operator_only-Within rt cfg w req rules) (
      reading_then-Within rules.order _ _ (λ mock. pure_then-Within rules.order _ _ (λ selfheal.
        reading_then-Within rules.order _ _
          (λ view. reading_then-Within rules.order _ _ (λ book. give-Within rules.order _)))))

  pub admin_friends_route-Within : Within R (admin_friends_route rt cfg w req)
  unfolding admin_friends_route
  admin_friends_route-Within =
      seq-Within rules.order _ _ admin_only-Within
        (reading_then-Within rules.order _ _ (λ lists. give-Within rules.order _))

  pub delete_admin_friend_route-Within :
      (segment : Str) → Within R (delete_admin_friend_route rt cfg w req segment)
  unfolding delete_admin_friend_route
  delete_admin_friend_route-Within segment =
      seq-Within rules.order _ _ admin_only-Within (revoke_peer-Within rt cfg w req rules segment)

  pub first_run_route-Within : Within R (first_run_route rt cfg w req)
  unfolding first_run_route
  first_run_route-Within n = elim (Bool-cases (hides_token rt cfg w req n)) [
    | inl hidden ↦ rw hidden (same n)
    | inr shown ↦ rw shown (visiting n (ground arith))
  ]

  open_gate-Within : (c : Canary) → Within R (open_gate rt cfg w req c)
  open_gate-Within c n = gating n _

  pub canary_route-Within : Within R (canary_route rt cfg w req)
  unfolding canary_route
  canary_route-Within = seq-Within rules.order _ _ admin_only-Within (
      pure_then-Within rules.order _ _ (λ body. reading_then-Within rules.order _ _ (λ id.
        pure_then-Within rules.order _ _
          (λ c. seq-Within rules.order _ _ (open_gate-Within c) (give-Within rules.order _)))))

  pub gate_log_route-Within : Within R (gate_log_route rt cfg w req)
  unfolding gate_log_route
  gate_log_route-Within = seq-Within rules.order _ _ admin_only-Within (
      reading_then-Within rules.order _ _ (λ log.
        branch-Within rules.order _ _ _ (give-Within rules.order _) (give-Within rules.order _)))

  on_gate-Within : (f : Gate → Gate) → Within R (on_gate f)
  unfolding on_gate
  on_gate-Within f n = gating n _

  pub gate_close_route-Within : Within R (gate_close_route rt cfg w req)
  unfolding gate_close_route
  gate_close_route-Within = seq-Within rules.order _ _ admin_only-Within (
      branch-Within rules.order _ _ _
        (seq-Within rules.order _ _ (on_gate-Within _) (give-Within rules.order _))
        (pure-Within rules.order _))

  open_remote-Within : (a : Option AdminApp) → Within R (open_remote rt cfg w req a)
  open_remote-Within none = give-Within rules.order _
  open_remote-Within (some a) = seq-Within rules.order _ _ (pure-Within rules.order _) (
      pure_then-Within rules.order _ _ (λ body.
        seq-Within rules.order _ _ (pure-Within rules.order _)
          (pure_then-Within rules.order _ _ (λ blob. pure-Within rules.order _))))

  pub gate_open_route-Within : Within R (gate_open_route rt cfg w req)
  unfolding gate_open_route
  gate_open_route-Within =
      seq-Within rules.order _ _ (operator_only-Within rt cfg w req rules)
        (open_remote-Within cfg.admin_app)

  mint-Within : (mock : Bool) (admin : Option Identity) → Within R (mint rt cfg w req mock admin)
  mint-Within true (some admin) = pure_then-Within rules.order _ _ (λ body.
      reading_then-Within rules.order _ _
        (λ id. pure_then-Within rules.order _ _ (λ blob. give-Within rules.order _)))
  mint-Within true none = give-Within rules.order _
  mint-Within false admin = give-Within rules.order _

  pub mint_route-Within : Within R (mint_route rt cfg w req)
  unfolding mint_route
  mint_route-Within = reading_then-Within rules.order _ _ (λ mock. mint-Within mock cfg.mock_admin)
