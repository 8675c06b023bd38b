-- ===== src/Tests/Gates.antt =====
-- The gate on a short run: a request, its approval, and the helper's exit.
use vpn_pi.Common.{
  ℕ, ◌≤◌, ◌≡◌, refl, true, false, List, [], ◌∷◌, lit, str_eq, str_beq, filterb, All, arith,
}
use vpn_pi.Common.Maps
use vpn_pi.Canary.{Canary}
use vpn_pi.Canary.Replay.{IsFresh}
use vpn_pi.Gate.{
  Gate, Decision, LogEntry, Event, requests, answers, closes, locks, exits, fires, new_gate,
  open_request, island, run, step,
}
use vpn_pi.Gate.Liveness.{IsGuarded, new_gate-IsGuarded, run-IsGuarded}
use vpn_pi.Gate.Reclose.{IsOwn, run-reclose}
use vpn_pi.Gate.Replay.{replay_refused}
use vpn_pi.Gate.Freshness.{fresh_replay_refused}
use vpn_pi.Gate.Budget.{openings, admissions, openings-run}
use vpn_pi.Tests.Toy.{toy}

abbrev gate : Gate
gate = new_gate 600 3600

abbrev pub canary : Canary
canary = record {
  admin = lit "alice";
  keyword = lit "open";
  text = lit "open please";
  nonce = lit "n1";
  issued = 1000000 ∷ [];
}

abbrev other : Canary
other = record canary { nonce = lit "n2" }

abbrev approval : Decision
approval = record { approve = true; reason = lit "fine" }

abbrev later_events : List Event
later_events =
    answers 0 approval
    ∷ locks
    ∷ exits true 1000100
    ∷ requests other 1000200
    ∷ closes (lit "manual") 1000300
    ∷ []

abbrev all_events : List Event
all_events = requests canary 1000000 ∷ later_events

run-IsGuarded_example : IsGuarded (run gate all_events)
run-IsGuarded_example = run-IsGuarded gate all_events (new_gate-IsGuarded 600 3600)

run-reclose_example :
    (es : List Event) × All IsOwn es × ((run (run gate all_events) es).state.state ≡ island)
run-reclose_example =
    run-reclose (run gate all_events) (run-IsGuarded gate all_events (new_gate-IsGuarded 600 3600))

canary-admitted : (open_request canary 1000000 gate).1 ≡ true
unfolding open_request new_gate Maps.get filterb
canary-admitted = refl

replay_refused_example :
    (open_request canary 2000000 (run (open_request canary 1000000 gate).0 later_events)).1 ≡ false
unfolding new_gate
replay_refused_example =
    replay_refused gate canary canary 1000000 2000000 later_events canary-admitted refl
      (tt, (tt, (tt, (omega arith, (tt, tt))))) (omega arith)

canary-IsFresh : (now : ℕ) → now ≤ 2000000 → 1000000 ≤ now → IsFresh toy 1800 now canary
canary-IsFresh now h k = record {
  issued = 1000000;
  parsed = refl;
  early = omega arith;
  late = omega arith;
}

fresh_replay_refused_example :
    (open_request canary 2000000 (run (open_request canary 1000000 gate).0 later_events)).1 ≡ false
unfolding new_gate
fresh_replay_refused_example =
    fresh_replay_refused toy gate canary 1800 1000000 2000000 later_events (omega arith)
      (canary-IsFresh 1000000 (omega arith) (omega arith)) canary-admitted
      (tt, (tt, (tt, (omega arith, (tt, tt))))) (canary-IsFresh 2000000 (omega arith) (omega arith))

openings-run_example :
    openings (run (new_gate 600 3600) all_events).log ≤ admissions (new_gate 600 3600) all_events
openings-run_example = openings-run 600 3600 all_events

-- The run opens the gate once, for one admission of the first canary and one of the second.
openings_test : (openings (run gate all_events).log ≡ 1) × (admissions gate all_events ≡ 2)
unfolding run openings step Maps.get filterb new_gate vpn_pi.Gate.finish_job Maps.set str_beq
    admissions
openings_test = (refl, refl)
