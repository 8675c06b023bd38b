-- ===== src/Node/Run.antt =====
-- A node over time: requests, and what the gate waits for. The two calls of `open` and `close` in
-- main.ts resume when the model has answered or the helper has exited; after `open`, which throws
-- where the helper fails, the canary route persists (main.ts, line 636). A visitor of the first-run
-- page waits for the marker's removal. At any time the files that can be written may change.
use vpn_pi.Common.{
  ℕ, Bool, true, false, not, ◌&&◌, Option, some, List, [], ◌∷◌, length, ltb, if◌then◌else◌,
}
use vpn_pi.Gate.{Gate, Decision, Job, open_job, close_job, answers, locks, exits, fires}
use vpn_pi.Gate
use vpn_pi.Node.State.{Runtime, Config, World, Http, Node, persist}
use vpn_pi.Node.Admin.{unlink_marker}
use vpn_pi.Node.Routes.{serve}

pub data Event : Type 0 where
  serves : World → Http → Event
  model_answers : ℕ → Decision → Event
  lock_frees : Event
  helper_exits : (ok : Bool) → (at : ℕ) → Event
  timer_fires : (now : ℕ) → Event
  marker_goes : (removed : Bool) → Event
  disk_changes : (writes : ℕ) → Event

abbrev gate_step : Gate.Event → Node → Node
gate_step e n = record n { gate = Gate.step n.gate e }

abbrev pub persist_if : Bool → Node → Node
persist_if b n = if b then (persist n).1 else n

abbrev pub is_opening : Option Job → Bool
is_opening (some (open_job c now reason)) = true
is_opening _ = false

module _ (rt : Runtime) (cfg : Config) where
  -- A denial ends `open`; an approval waits for the helper, and an exit with an error throws.
  unfoldable pub step : Node → Event → Node
  step n (serves w req) = (serve rt cfg w req n).1
  step n (model_answers k d) =
      persist_if (ltb k (length n.gate.deciding) && not d.approve) (gate_step (answers k d) n)
  step n lock_frees = gate_step locks n
  step n (helper_exits ok at) =
      persist_if (ok && is_opening n.gate.running) (gate_step (exits ok at) n)
  step n (timer_fires now) = gate_step (fires now) n
  step n (marker_goes removed) = unlink_marker removed n
  step n (disk_changes writes) = record n { writes = writes }

  unfoldable pub run : Node → List Event → Node
  run n [] = n
  run n (e ∷ es) = run (step n e) es
