-- ===== src/Gate/Liveness.antt =====
-- The invariant of the gate (core/gate.ts) that ties an open gate to what will close it.
use vpn_pi.Common.{
  ℕ, ◌≡◌, refl, Bool, true, false, ◌||◌, Option, none, some, List, leb, Bool-cases, inl, inr, [],
  ◌∷◌, ◌++◌, is_some, arith,
}
use vpn_pi.Canary.{Canary}
use vpn_pi.Gate.{
  Gate, Decision, Timer, Job, open_job, close_job, Event, requests, answers, closes, locks, exits,
  fires, is_internet, open_request, decided, close_request, take_lock, finish_job, finish, fire,
  answer, pick, step, run, begin_job, new_gate,
}

abbrev pub has_close : List Job → Bool
has_close [] = false
has_close (open_job c now reason ∷ js) = has_close js
has_close (close_job reason now ∷ js) = true

-- A timer is set, a job is in progress, or a close waits for the lock.
abbrev pub will_act : Gate → Bool
will_act g = is_some g.timer || (is_some g.running || has_close g.waiting)

-- An open gate has something that acts; and it reports a closing time exactly when it is open.
pub record IsGuarded (g : Gate) : Type 0 where
  pub guarded : is_internet g.state.state ≡ true → will_act g ≡ true
  pub reported : is_some g.state.closes_at ≡ is_internet g.state.state

has_close-append_close :
    (js : List Job) (reason : List ℕ) (now : ℕ) → has_close (js ++ close_job reason now ∷ []) ≡ true
has_close-append_close [] reason now = refl
has_close-append_close (open_job c n r ∷ js) reason now = has_close-append_close js reason now
has_close-append_close (close_job r n ∷ js) reason now = refl

has_close-append_open :
    (js : List Job) (c : Canary) (now : ℕ) (reason : List ℕ)
    → has_close (js ++ open_job c now reason ∷ []) ≡ has_close js
has_close-append_open [] c now reason = refl
has_close-append_open (open_job d n r ∷ js) c now reason = has_close-append_open js c now reason
has_close-append_open (close_job r n ∷ js) c now reason = refl

decided-IsGuarded :
    (c : Canary) (now : ℕ) (d : Decision) (g : Gate) → IsGuarded g → IsGuarded (decided c now d g)
unfolding decided
decided-IsGuarded c now d g v = ground (arith, has_close-append_open g.waiting c now d.reason)

close_request-IsGuarded :
    (reason : List ℕ) (now : ℕ) (g : Gate)
    → (is_some g.state.closes_at ≡ is_internet g.state.state)
    → IsGuarded (close_request reason now g)
unfolding close_request
close_request-IsGuarded reason now g v = ground (arith, has_close-append_close g.waiting reason now)

open_request-IsGuarded :
    (c : Canary) (now : ℕ) (g : Gate) → IsGuarded g → IsGuarded (open_request c now g).0
unfolding open_request
open_request-IsGuarded c now g v = ground arith

take_lock-IsGuarded :
    (g : Gate) (r : Option Job) (w : List Job)
    → g.running ≡ r
    → g.waiting ≡ w
    → IsGuarded g
    → IsGuarded (take_lock r w g)
unfolding take_lock begin_job
take_lock-IsGuarded g (some j) w p q v = v
take_lock-IsGuarded g none [] p q v = v
take_lock-IsGuarded g none (open_job c now reason ∷ w) p q v = ground arith
take_lock-IsGuarded g none (close_job reason now ∷ w) p q v = ground arith

finish_job-IsGuarded :
    (j : Job) (ok : Bool) (at : ℕ) (g : Gate) → IsGuarded g → IsGuarded (finish_job j ok at g)
unfolding finish_job
finish_job-IsGuarded (open_job c now reason) true at g v = ground arith
finish_job-IsGuarded (open_job c now reason) false at g v = ground arith
finish_job-IsGuarded (close_job reason now) true at g v = ground arith
finish_job-IsGuarded (close_job reason now) false at g v = ground arith

fire-IsGuarded : (t : Option Timer) (now : ℕ) (g : Gate) → IsGuarded g → IsGuarded (fire t now g)
unfolding fire
fire-IsGuarded none now g v = v
fire-IsGuarded (some t) now g v = elim (Bool-cases (leb t.due now)) [
  | inl due ↦ rw due (close_request-IsGuarded t.reason now (record g { timer = none }) v.reported)
  | inr early ↦ rw early v
]

answer-IsGuarded :
    (o : Option ((Canary × ℕ) × List (Canary × ℕ))) (d : Decision) (g : Gate)
    → IsGuarded g
    → IsGuarded (answer o d g)
unfolding answer
answer-IsGuarded none d g v = v
answer-IsGuarded (some ((c, now), rest)) d g v =
    decided-IsGuarded c now d (record g { deciding = rest })
      (record { guarded = v.guarded; reported = v.reported })

finish-IsGuarded :
    (r : Option Job) (ok : Bool) (at : ℕ) (g : Gate) → IsGuarded g → IsGuarded (finish r ok at g)
unfolding finish
finish-IsGuarded none ok at g v = v
finish-IsGuarded (some j) ok at g v = finish_job-IsGuarded j ok at g v

pub step-IsGuarded : (g : Gate) (e : Event) → IsGuarded g → IsGuarded (step g e)
unfolding step
step-IsGuarded g (requests c now) v = open_request-IsGuarded c now g v
step-IsGuarded g (answers k d) v = answer-IsGuarded (pick k g.deciding) d g v
step-IsGuarded g (closes reason now) v = close_request-IsGuarded reason now g v.reported
step-IsGuarded g locks v = take_lock-IsGuarded g g.running g.waiting refl refl v
step-IsGuarded g (exits ok at) v = finish-IsGuarded g.running ok at g v
step-IsGuarded g (fires now) v = fire-IsGuarded g.timer now g v

-- Whatever requests, replies, exits of the helper and timer callbacks come in whatever order, a gate
-- that is open has a timer set, a job in progress or a close that waits for the lock, and it
-- reports a closing time exactly when it is open.
pub run-IsGuarded : (g : Gate) (es : List Event) → IsGuarded g → IsGuarded (run g es)
unfolding run
run-IsGuarded g [] v = v
run-IsGuarded g (e ∷ es) v = run-IsGuarded (step g e) es (step-IsGuarded g e v)

pub new_gate-IsGuarded : (ttl prune : ℕ) → IsGuarded (new_gate ttl prune)
unfolding new_gate
new_gate-IsGuarded ttl prune = record { guarded = λ h. absurd (cc); reported = refl }
