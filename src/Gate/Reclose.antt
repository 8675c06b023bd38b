-- ===== src/Gate/Reclose.antt =====
-- Runs of the own machinery of the gate (core/gate.ts): its lock, the helper and the timer.
use vpn_pi.Common.{
  ◌≡◌, refl, true, false, Option, none, some, List, [], ◌∷◌, ◌++◌, arith, All, All-append,
}
use vpn_pi.Gate.{
  Gate, Timer, Mode, island, internet, Job, open_job, close_job, Event, requests, answers, closes,
  locks, exits, fires, is_internet, finish_job, finish, step, run, close_request,
}
use vpn_pi.Gate.Liveness.{IsGuarded, run-IsGuarded}

-- The events of the node's own machinery, with a helper that succeeds.
abbrev pub IsOwn : Event → Type 0
IsOwn locks = Unit
IsOwn (exits ok at) = ok ≡ true
IsOwn (fires now) = Unit
IsOwn (requests c now) = ⊥
IsOwn (answers k d) = ⊥
IsOwn (closes reason now) = ⊥

run-append : (g : Gate) (es fs : List Event) → run g (es ++ fs) ≡ run (run g es) fs
unfolding run
run-append g [] fs = refl
run-append g (e ∷ es) fs = run-append (step g e) es fs

-- Every job that waits is run to its end.
drain : (w : List Job) → List Event
drain [] = []
drain (j ∷ w) = locks ∷ exits true 0 ∷ drain w

All-drain : (w : List Job) → All IsOwn (drain w)
unfolding drain
All-drain [] = tt
All-drain (j ∷ w) = (tt, (refl, All-drain w))

abbrev IsIdle : Gate → Type 0
IsIdle g = (g.running ≡ none) × (g.waiting ≡ [])

serve-first :
    (j : Job) (w : List Job) (g : Gate)
    → g.running ≡ none
    → g.waiting ≡ j ∷ w
    → let g' = step (step g locks) (exits true 0) in (g'.running ≡ none) × (g'.waiting ≡ w)
unfolding step finish_job
serve-first (open_job c now reason) w g p q = ground arith
serve-first (close_job reason now) w g p q = ground arith

run-drain : (w : List Job) (g : Gate) → g.running ≡ none → g.waiting ≡ w → IsIdle (run g (drain w))
unfolding drain run
run-drain [] g p q = (p, q)
run-drain (j ∷ w) g p q =
    let (free, rest) = serve-first j w g p q in
    run-drain w (step (step g locks) (exits true 0)) free rest

-- The job in progress ends, and then those that wait.
settle : Gate → List Event
settle g = exits true 0 ∷ drain g.waiting

finish-free :
    (r : Option Job) (g : Gate)
    → g.running ≡ r
    → ((finish r true 0 g).running ≡ none) × ((finish r true 0 g).waiting ≡ g.waiting)
unfolding finish finish_job
finish-free none g e = (e, refl)
finish-free (some (open_job c now reason)) g e = (refl, refl)
finish-free (some (close_job reason now)) g e = (refl, refl)

run-settle : (g : Gate) → IsIdle (run g (settle g))
unfolding settle run step
run-settle g =
    let (free, rest) = finish-free g.running g refl in
    run-drain g.waiting (finish g.running true 0 g) free rest

-- The timer fires when it is due, and its close is run.
finale : Option Timer → List Event
finale none = []
finale (some t) = fires t.due ∷ locks ∷ exits true t.due ∷ []

All-finale : (o : Option Timer) → All IsOwn (finale o)
unfolding finale
All-finale none = tt
All-finale (some t) = (tt, (tt, (refl, tt)))

island_of_not : (m : Mode) → is_internet m ≡ false → m ≡ island
island_of_not island h = refl
island_of_not internet h = absurd (cc)

run-finale :
    (o : Option Timer) (g : Gate)
    → g.timer ≡ o
    → IsIdle g
    → IsGuarded g
    → (run g (finale o)).state.state ≡ island
unfolding run finale step finish_job close_request
run-finale none g e (free, rest) v = island_of_not g.state.state (ground arith)
run-finale (some t) g e (free, rest) v = ground arith

-- From every state of the gate that the invariant allows there is a run of its own machinery alone
-- (jobs taken from the lock, a helper that exits with 0, and the timer at the time it is due) after
-- which egress is closed again: no request or manual close is needed.
pub run-reclose :
    (g : Gate) → IsGuarded g → (es : List Event) × All IsOwn es × ((run g es).state.state ≡ island)
run-reclose g v =
    let es = settle g in
    let h = run g es in
    (
      es ++ finale h.timer,
      All-append IsOwn es (finale h.timer) (unfold settle in (refl, All-drain g.waiting))
          (All-finale h.timer),
      rw run-append (run-finale h.timer h refl (run-settle g) (run-IsGuarded g es v)),
    )
