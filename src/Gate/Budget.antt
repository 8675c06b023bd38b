-- ===== src/Gate/Budget.antt =====
-- The openings in the log of the gate (core/gate.ts) against the requests that were let through.
use vpn_pi.Common.{
  ℕ, zero, suc, ◌+◌, ◌≤◌, ◌≡◌, refl, Bool, true, false, Option, none, some, List, [], ◌∷◌, ◌++◌,
  arith, if◌then◌else◌, length, length-append, inl, inr, Option-cases,
}
use vpn_pi.Canary.{Canary}
use vpn_pi.Gate.{
  Gate, Decision, Timer, LogEntry, Action, Job, open_job, close_job, Event, requests, answers,
  closes, locks, exits, fires, open_request, decided, close_request, take_lock, begin_job,
  finish_job, finish, fire, answer, pick, step, run, open_action, close_action, deny_action,
  new_gate,
}

abbrev is_open_action : Action → ℕ
is_open_action open_action = 1
is_open_action close_action = 0
is_open_action deny_action = 0

-- The openings in the log.
unfoldable pub openings : List LogEntry → ℕ
openings [] = 0
openings (e ∷ es) = is_open_action e.action + openings es

abbrev is_open_job : Job → ℕ
is_open_job (open_job c now reason) = 1
is_open_job (close_job reason now) = 0

abbrev pending_opens : List Job → ℕ
pending_opens [] = 0
pending_opens (j ∷ js) = is_open_job j + pending_opens js

abbrev running_opens : Option Job → ℕ
running_opens none = 0
running_opens (some j) = is_open_job j

-- The openings that were made or may still come of the requests let through so far.
abbrev cost : Gate → ℕ
cost g = openings g.log + running_opens g.running + pending_opens g.waiting + length g.deciding

-- The requests that the gate lets through to the model.
abbrev pub admitted : Gate → Event → ℕ
admitted g (requests c now) = if (open_request c now g).1 then 1 else 0
admitted g (answers k d) = 0
admitted g (closes reason now) = 0
admitted g locks = 0
admitted g (exits ok at) = 0
admitted g (fires now) = 0

unfoldable pub admissions : Gate → List Event → ℕ
admissions g [] = 0
admissions g (e ∷ es) = admitted g e + admissions (step g e) es

openings-append : (xs ys : List LogEntry) → openings (xs ++ ys) ≡ openings xs + openings ys
unfolding openings
openings-append [] ys = omega arith
openings-append (x ∷ xs) ys = omega (arith, openings-append xs ys)

pending_opens-append :
    (xs ys : List Job) → pending_opens (xs ++ ys) ≡ pending_opens xs + pending_opens ys
pending_opens-append [] ys = omega arith
pending_opens-append (x ∷ xs) ys = omega (arith, pending_opens-append xs ys)

length-pick :
    (k : ℕ) (xs ys : List (Canary × ℕ)) (y : Canary × ℕ)
    → pick k xs ≡ some (y, ys)
    → length xs ≡ length ys + 1
unfolding pick
length-pick k [] ys y h = cc
length-pick zero (x ∷ xs) ys y h = ground arith
length-pick (suc k) (x ∷ xs) ys y h = elim (Option-cases (pick k xs)) [
  | inl e ↦ absurd (ground arith)
  | inr ((z, zs), e) ↦ let ih = length-pick k xs zs z e in ground arith
]

open_request-cost :
    (g : Gate) (c : Canary) (now : ℕ)
    → cost (open_request c now g).0 ≤ cost g + admitted g (requests c now)
unfolding open_request
open_request-cost g c now = ground (arith, length-append g.deciding ((c, now) ∷ []))

decided-cost :
    (g : Gate) (c : Canary) (now : ℕ) (d : Decision) → cost (decided c now d g) ≤ cost g + 1
unfolding decided openings
decided-cost g c now d =
    let entry : LogEntry = record {
      at = now;
      action = deny_action;
      admin = some c.admin;
      reason = d.reason;
    } in
    ground (
      arith,
      openings-append g.log (entry ∷ []),
      pending_opens-append g.waiting (open_job c now d.reason ∷ []),
    )

answer-cost : (g : Gate) (k : ℕ) (d : Decision) → cost (answer (pick k g.deciding) d g) ≤ cost g
unfolding answer
answer-cost g k d = elim (Option-cases (pick k g.deciding)) [
  | inl e ↦ rw (e, answer) (omega arith)
  | inr (((c, now), rest), e) ↦
      rw (e, answer)
        (omega (
          arith,
          decided-cost (record g { deciding = rest }) c now d,
          length-pick k g.deciding rest (c, now) e,
        ))
]

take_lock-cost :
    (g : Gate) (r : Option Job) (w : List Job)
    → g.running ≡ r
    → g.waiting ≡ w
    → cost (take_lock r w g) ≤ cost g
unfolding take_lock begin_job
take_lock-cost g (some j) w p q = omega arith
take_lock-cost g none [] p q = omega arith
take_lock-cost g none (open_job c now reason ∷ w) p q = ground arith
take_lock-cost g none (close_job reason now ∷ w) p q = ground arith

finish-cost :
    (g : Gate) (r : Option Job) (ok : Bool) (at : ℕ)
    → g.running ≡ r
    → cost (finish r ok at g) ≤ cost g
unfolding finish finish_job openings
finish-cost g none ok at p = omega arith
finish-cost g (some (open_job c now reason)) true at p =
    let entry : LogEntry = record {
      at = now;
      action = open_action;
      admin = some c.admin;
      reason = reason;
    } in
    ground (arith, openings-append g.log (entry ∷ []))
finish-cost g (some (open_job c now reason)) false at p = ground arith
finish-cost g (some (close_job reason now)) true at p =
    let entry : LogEntry = record {
      at = now;
      action = close_action;
      admin = none;
      reason = reason;
    } in
    ground (arith, openings-append g.log (entry ∷ []))
finish-cost g (some (close_job reason now)) false at p = ground arith

close_request-cost :
    (g : Gate) (reason : List ℕ) (now : ℕ) → cost (close_request reason now g) ≤ cost g
unfolding close_request
close_request-cost g reason now =
    omega (arith, pending_opens-append g.waiting (close_job reason now ∷ []))

fire-cost : (g : Gate) (t : Option Timer) (now : ℕ) → cost (fire t now g) ≤ cost g
unfolding fire
fire-cost g none now = omega arith
fire-cost g (some t) now =
    ground (arith, close_request-cost (record g { timer = none }) t.reason now)

step-cost : (g : Gate) (e : Event) → cost (step g e) ≤ cost g + admitted g e
unfolding step
step-cost g (requests c now) = open_request-cost g c now
step-cost g (answers k d) = omega (arith, answer-cost g k d)
step-cost g (closes reason now) = omega (arith, close_request-cost g reason now)
step-cost g locks = omega (arith, take_lock-cost g g.running g.waiting refl refl)
step-cost g (exits ok at) = omega (arith, finish-cost g g.running ok at refl)
step-cost g (fires now) = omega (arith, fire-cost g g.timer now)

run-cost : (g : Gate) (es : List Event) → cost (run g es) ≤ cost g + admissions g es
unfolding run admissions
run-cost g [] = omega arith
run-cost g (e ∷ es) = omega (arith, step-cost g e, run-cost (step g e) es)

-- From a new gate, the openings in the log never outnumber the requests with a fresh nonce that
-- were let through: no reply, exit or timer opens the gate twice for one canary.
pub openings-run :
    (ttl prune : ℕ) (es : List Event)
    → openings (run (new_gate ttl prune) es).log ≤ admissions (new_gate ttl prune) es
unfolding new_gate openings
openings-run ttl prune es = omega (arith, run-cost (new_gate ttl prune) es)
