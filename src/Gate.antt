-- ===== src/Gate.antt =====
-- core/gate.ts: the internet gate. Every `await` of the source ends a step, so that requests,
-- replies of the model, exits of the helper and the timer interleave freely; what runs between two
-- awaits is one function below. Times are milliseconds, and a timer holds the time it is due.
pub mod Budget
pub mod Freshness
pub mod Liveness
pub mod Replay
pub mod Reclose
use vpn_pi.Common.{
  ℕ, zero, suc, ◌+◌, ◌*◌, ◌^◌, min, Bool, true, false, not, Option, none, some, List, [], ◌∷◌, ◌++◌,
  Str, lit, str_eq, ltb, leb, filterb, is_some, if◌then◌else◌,
}
use vpn_pi.Common.Maps
use vpn_pi.Common.Maps.{Map}
use vpn_pi.Canary.{Canary}

pub data Mode : Type 0 where
  island internet : Mode

-- `closesAt` is kept as the time that its ISO text stands for.
pub record GateState : Type 0 where
  pub state : Mode
  pub closes_at : Option ℕ

pub data Action : Type 0 where
  open_action close_action deny_action : Action

pub record LogEntry : Type 0 where
  pub at : ℕ
  pub action : Action
  pub admin : Option Str
  pub reason : Str

pub record Decision : Type 0 where
  pub approve : Bool
  pub reason : Str

pub record Timer : Type 0 where
  pub due : ℕ
  pub reason : Str

-- What waits for the lock: the second half of `open`, or `close`.
pub data Job : Type 0 where
  open_job : Canary → (now : ℕ) → (reason : Str) → Job
  close_job : (reason : Str) → (now : ℕ) → Job

pub record Gate : Type 0 where
  pub ttl_seconds : ℕ
  pub nonce_prune_seconds : ℕ
  pub state : GateState
  pub log : List LogEntry
  pub consumed : Map Str ℕ
  pub timer : Option Timer
  pub reclose_attempts : ℕ
  -- the requests whose `llama.decide` is pending, the job that holds the lock, and those behind it
  pub deciding : List (Canary × ℕ)
  pub running : Option Job
  pub waiting : List Job

unfoldable pub new_gate : (ttl_seconds nonce_prune_seconds : ℕ) → Gate
new_gate ttl prune = record {
  ttl_seconds = ttl;
  nonce_prune_seconds = prune;
  state = record { state = island; closes_at = none };
  log = [];
  consumed = [];
  timer = none;
  reclose_attempts = 0;
  deciding = [];
  running = none;
  waiting = [];
}

schedule_reclose : (at delay_ms : ℕ) → Str → Gate → Gate
schedule_reclose at delay reason g = record g {
  timer = some (record { due = at + delay; reason = reason });
}

-- `!(consumedAt < now - prune)`, without the difference that may be negative.
abbrev pub kept : ℕ → ℕ → Str × ℕ → Bool
kept prune_seconds now e = not (ltb (e.1 + prune_seconds * 1000) now)

-- `open` up to the call of the model; false if it throws "canary already used".
unfoldable pub open_request : Canary → ℕ → Gate → Gate × Bool
open_request c now g =
    let pruned = filterb (kept g.nonce_prune_seconds now) g.consumed in
    if Maps.has c.nonce pruned then (record g { consumed = pruned }, false) else (
      record g { consumed = Maps.set c.nonce now pruned; deciding = g.deciding ++ (c, now) ∷ [] },
      true,
    )

-- `open` once the model has answered: a denial is logged, an approval waits for the lock.
unfoldable pub decided : Canary → ℕ → Decision → Gate → Gate
decided c now d g =
    if d.approve
    then record g { waiting = g.waiting ++ open_job c now d.reason ∷ [] }
    else record g {
      log =
          g.log
          ++ record { at = now; action = deny_action; admin = some c.admin; reason = d.reason }
            ∷ [];
    }

unfoldable pub close_request : Str → ℕ → Gate → Gate
close_request reason now g = record g { waiting = g.waiting ++ close_job reason now ∷ [] }

-- The first statements under the lock, up to the call of the helper.
begin_job : Job → Gate → Gate
begin_job (open_job c now reason) g = record g {
  timer = none;
  running = some (open_job c now reason);
}
begin_job (close_job reason now) g = record g { running = some (close_job reason now) }

take_lock : Option Job → List Job → Gate → Gate
take_lock (some j) waiting g = g
take_lock none [] g = g
take_lock none (j ∷ js) g = begin_job j (record g { waiting = js })

abbrev is_internet : Mode → Bool
is_internet island = false
is_internet internet = true

-- The rest of the job when the helper has exited at time `at`, and whether it exited with 0.
unfoldable pub finish_job : Job → Bool → ℕ → Gate → Gate
unfolding schedule_reclose
finish_job (open_job c now reason) true at g =
    let opened = record g {
      running = none;
      reclose_attempts = 0;
      state = record { state = internet; closes_at = some (now + g.ttl_seconds * 1000) };
      log =
          g.log
          ++ record { at = now; action = open_action; admin = some c.admin; reason = reason } ∷ [];
    } in
    schedule_reclose at (g.ttl_seconds * 1000) (lit "auto-reclose (ttl)") opened
finish_job (open_job c now reason) false at g =
    let freed = record g { running = none } in
    if is_internet g.state.state
    then schedule_reclose at 0 (lit "reclose after failed re-open") freed
    else freed
finish_job (close_job reason now) true at g = record g {
  running = none;
  timer = none;
  reclose_attempts = 0;
  state = record { state = island; closes_at = none };
  log = g.log ++ record { at = now; action = close_action; admin = none; reason = reason } ∷ [];
}
finish_job (close_job reason now) false at g =
    let failed = record g { running = none; reclose_attempts = g.reclose_attempts + 1 } in
    schedule_reclose at (min (1000 * 2 ^ failed.reclose_attempts) 60000) reason failed

finish : Option Job → Bool → ℕ → Gate → Gate
finish none ok at g = g
finish (some j) ok at g = finish_job j ok at g

-- The timer's callback, if a timer is set and due.
fire : Option Timer → ℕ → Gate → Gate
fire none now g = g
fire (some t) now g =
    if leb t.due now then close_request t.reason now (record g { timer = none }) else g

-- The reply to the `k`-th pending question; the model may answer in any order.
pick : ℕ → List (Canary × ℕ) → Option ((Canary × ℕ) × List (Canary × ℕ))
pick k [] = none
pick zero (x ∷ xs) = some (x, xs)
pick (suc k) (x ∷ xs) = elim (pick k xs) [ none ↦ none | some (y, ys) ↦ some (y, x ∷ ys) ]

answer : Option ((Canary × ℕ) × List (Canary × ℕ)) → Decision → Gate → Gate
answer none d g = g
answer (some ((c, now), rest)) d g = decided c now d (record g { deciding = rest })

pub data Event : Type 0 where
  requests : Canary → (now : ℕ) → Event
  answers : ℕ → Decision → Event
  closes : Str → (now : ℕ) → Event
  locks : Event
  exits : (ok : Bool) → (at : ℕ) → Event
  fires : (now : ℕ) → Event

-- One step; an event that cannot happen in the state leaves it as it is.
unfoldable pub step : Gate → Event → Gate
unfolding answer pick take_lock begin_job finish fire open_request decided close_request
step g (requests c now) = (open_request c now g).0
step g (answers k d) = answer (pick k g.deciding) d g
step g (closes reason now) = close_request reason now g
step g locks = take_lock g.running g.waiting g
step g (exits ok at) = finish g.running ok at g
step g (fires now) = fire g.timer now g

unfoldable pub run : Gate → List Event → Gate
run g [] = g
run g (e ∷ es) = run (step g e) es

-- `toJSON` and `loadConsumed`; an entry of the file has a nonce or a time only if it is a text or
-- a number.
unfoldable pub to_json : Gate → List (Str × ℕ)
to_json g = g.consumed

unfoldable pub load_consumed : List (Option Str × Option ℕ) → Gate → Gate
load_consumed [] g = g
load_consumed ((some nonce, some at) ∷ es) g =
    load_consumed es (record g { consumed = Maps.set nonce at g.consumed })
load_consumed (_ ∷ es) g = load_consumed es g
