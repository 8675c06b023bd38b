-- ===== src/Node/Nonces.antt =====
-- When the nonce of a canary reaches the disk (main.ts, lines 626 to 641, and core/gate.ts).
use vpn_pi.Common.{
  ℕ, ◌<◌, ◌≡◌, ltb, Bool, true, false, Option, none, some, List, [], ◌∷◌, Str, str_eq, filterb,
  arith,
}
use vpn_pi.Common.Maps
use vpn_pi.Canary.{Canary}
use vpn_pi.Gate.{Gate, kept, open_request, decided, finish_job}
use vpn_pi.Gate
use vpn_pi.Node.State.{Runtime, Config, Node, persist}
use vpn_pi.Node.Run.{Event, model_answers, lock_frees, helper_exits, step, run}

abbrev pub IsIdle : Gate → Type 0
IsIdle g = (g.deciding ≡ []) × (g.running ≡ none) × (g.waiting ≡ [])

-- A node whose gate has let a canary through and waits for the model.
abbrev pub asked : Canary → (now : ℕ) → Node → Node
asked c now n = record n { gate = (open_request c now n.gate).0 }

module _ (rt : Runtime) (cfg : Config) (n : Node) (c : Canary) (now at : ℕ) (reason : Str) where
  abbrev pub denial : List Event
  denial = model_answers 0 (record { approve = false; reason = reason }) ∷ []

  abbrev pub approval : Bool → List Event
  approval exit =
      model_answers 0 (record { approve = true; reason = reason })
      ∷ lock_frees
      ∷ helper_exits exit at
      ∷ []

  abbrev pub disk_time : List Event → Option ℕ
  disk_time es = Maps.get c.nonce (run rt cfg (asked c now n) es).disk.nonces

  -- A canary that an idle gate lets through has its nonce on the disk once the model has denied it
  -- or the helper has opened the gate, if all three files can be written and the node does not run
  -- with --mock; but if the helper fails, the nonce is spent in memory and the disk is as it was.
  pub nonce_on_disk :
      n.ctx.credentials.mock ≡ false
      → 2 < n.writes
      → IsIdle n.gate
      → (open_request c now n.gate).1 ≡ true
      → (disk_time denial ≡ some now)
        × (disk_time (approval true) ≡ some now)
        × ((run rt cfg (asked c now n) (approval false)).disk ≡ n.disk)
        × (Maps.get c.nonce (run rt cfg (asked c now n) (approval false)).gate.consumed ≡ some now)
  unfolding run step Gate.step open_request decided finish_job persist Gate.to_json
  nonce_on_disk real written (a, b, d) fresh =
      let spent =
        Maps.get-set_self c.nonce now
          (filterb (kept n.gate.nonce_prune_seconds now) n.gate.consumed) in
      let all_written : ltb 2 n.writes ≡ true = ground (arith, written) in
      ground (arith, spent, all_written, written)
