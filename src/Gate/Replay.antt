-- ===== src/Gate/Replay.antt =====
-- The spent nonces of the gate (core/gate.ts) over the events between two requests.
use vpn_pi.Common.{
  ℕ, ◌+◌, ◌*◌, ◌≤◌, ◌≡◌, refl, ◌∙◌, Bool, true, false, Option, none, some, List, [], ◌∷◌, Str,
  str_eq, str_beq_iff, All, arith, filterb,
}
use vpn_pi.Common.Maps
use vpn_pi.Canary.{Canary}
use vpn_pi.Gate.{
  Gate, Decision, Timer, Job, open_job, close_job, Event, requests, answers, closes, locks, exits,
  fires, open_request, decided, close_request, take_lock, begin_job, finish_job, finish, fire,
  answer, pick, step, run, kept,
}

-- Requests come no later than `limit`.
abbrev pub Until : ℕ → Event → Type 0
Until limit (requests c now) = now ≤ limit
Until limit (answers k d) = Unit
Until limit (closes reason now) = Unit
Until limit locks = Unit
Until limit (exits ok at) = Unit
Until limit (fires now) = Unit

abbrev horizon : Gate → ℕ → ℕ
horizon g t = t + g.nonce_prune_seconds * 1000

-- What an event leaves alone.
abbrev Same : Gate → Gate → Type 0
Same g h = (h.consumed ≡ g.consumed) × (h.nonce_prune_seconds ≡ g.nonce_prune_seconds)

take_lock-Same : (g : Gate) (r : Option Job) (w : List Job) → Same g (take_lock r w g)
unfolding take_lock begin_job
take_lock-Same g (some j) w = (refl, refl)
take_lock-Same g none [] = (refl, refl)
take_lock-Same g none (open_job c now reason ∷ w) = (refl, refl)
take_lock-Same g none (close_job reason now ∷ w) = (refl, refl)

finish-Same : (g : Gate) (r : Option Job) (ok : Bool) (at : ℕ) → Same g (finish r ok at g)
unfolding finish finish_job
finish-Same g none ok at = (refl, refl)
finish-Same g (some (open_job c now reason)) true at = (refl, refl)
finish-Same g (some (open_job c now reason)) false at = ground arith
finish-Same g (some (close_job reason now)) true at = (refl, refl)
finish-Same g (some (close_job reason now)) false at = (refl, refl)

fire-Same : (g : Gate) (t : Option Timer) (now : ℕ) → Same g (fire t now g)
unfolding fire close_request
fire-Same g none now = (refl, refl)
fire-Same g (some t) now = ground arith

answer-Same :
    (g : Gate) (o : Option ((Canary × ℕ) × List (Canary × ℕ))) (d : Decision)
    → Same g (answer o d g)
unfolding answer decided
answer-Same g none d = (refl, refl)
answer-Same g (some ((c, now), rest)) d = ground arith

open_request-spent :
    (g : Gate) (c : Canary) (now : ℕ) (n : Str) (t : ℕ)
    → Maps.get n g.consumed ≡ some t
    → now ≤ horizon g t
    → Maps.get n (open_request c now g).0.consumed ≡ some t
unfolding open_request
open_request-spent g c now n t h k =
    let pruned = filterb (kept g.nonce_prune_seconds now) g.consumed in
    let there : Maps.get n pruned ≡ some t =
      Maps.get-filterb (kept g.nonce_prune_seconds now) n t g.consumed h (ground arith) in
    ground (arith, there, Maps.get-set c.nonce n now pruned, str_beq_iff c.nonce n)

step-spent :
    (g : Gate) (e : Event) (n : Str) (t : ℕ)
    → Maps.get n g.consumed ≡ some t
    → Until (horizon g t) e
    → (Maps.get n (step g e).consumed ≡ some t)
      × ((step g e).nonce_prune_seconds ≡ g.nonce_prune_seconds)
unfolding step
step-spent g (requests c now) n t h k =
    (open_request-spent g c now n t h k, unfold open_request in ground arith)
step-spent g (answers k d) n t h _ = let (c, p) = answer-Same g (pick k g.deciding) d in (rw c h, p)
step-spent g (closes reason now) n t h _ = unfold close_request in (h, refl)
step-spent g locks n t h _ = let (c, p) = take_lock-Same g g.running g.waiting in (rw c h, p)
step-spent g (exits ok at) n t h _ = let (c, p) = finish-Same g g.running ok at in (rw c h, p)
step-spent g (fires now) n t h _ = let (c, p) = fire-Same g g.timer now in (rw c h, p)

run-spent :
    (g : Gate) (es : List Event) (n : Str) (t : ℕ)
    → Maps.get n g.consumed ≡ some t
    → All (Until (horizon g t)) es
    → (Maps.get n (run g es).consumed ≡ some t)
      × ((run g es).nonce_prune_seconds ≡ g.nonce_prune_seconds)
unfolding run
run-spent g [] n t h a = (h, refl)
run-spent g (e ∷ es) n t h (k, a) =
    let (there, same) = step-spent g e n t h k in
    let (later, same') = run-spent (step g e) es n t there (rw same a) in (later, same' ∙ same)

open_request-consumes :
    (g : Gate) (c : Canary) (now : ℕ)
    → (open_request c now g).1 ≡ true
    → (Maps.get c.nonce (open_request c now g).0.consumed ≡ some now)
      × ((open_request c now g).0.nonce_prune_seconds ≡ g.nonce_prune_seconds)
unfolding open_request
open_request-consumes g c now h =
    ground
      (arith, Maps.get-set_self c.nonce now (filterb (kept g.nonce_prune_seconds now) g.consumed))

open_request-refuses :
    (g : Gate) (c : Canary) (now t : ℕ)
    → Maps.get c.nonce g.consumed ≡ some t
    → now ≤ horizon g t
    → (open_request c now g).1 ≡ false
unfolding open_request
open_request-refuses g c now t h k =
    let there =
      Maps.get-filterb (kept g.nonce_prune_seconds now) c.nonce t g.consumed h (ground arith) in
    ground (arith, there)

-- Once a canary is let through at time `now`, any canary with the same nonce is refused until
-- `nonce_prune_seconds` have passed, whatever other events come in between (their requests no
-- later than that): also if the model denied the first, or the helper failed.
pub replay_refused :
    (g : Gate) (c d : Canary) (now later : ℕ) (es : List Event)
    → (open_request c now g).1 ≡ true
    → d.nonce ≡ c.nonce
    → All (Until (now + g.nonce_prune_seconds * 1000)) es
    → later ≤ now + g.nonce_prune_seconds * 1000
    → (open_request d later (run (open_request c now g).0 es)).1 ≡ false
replay_refused g c d now later es passed same a k =
    let h = (open_request c now g).0 in
    let (spent, prune) = open_request-consumes g c now passed in
    let (there, prune') = run-spent h es c.nonce now spent (rw prune a) in
    open_request-refuses (run h es) d later now (rw same there) (rw (prune', prune) k)
