-- ===== src/Gate/Freshness.antt =====
-- The freshness check of core/canary.ts together with the pruning of nonces in core/gate.ts.
use vpn_pi.Common.{ℕ, ◌+◌, ◌*◌, ◌≤◌, ◌≡◌, true, false, List, [], ◌∷◌, All, arith, refl}
use vpn_pi.Platform.{Platform}
use vpn_pi.Canary.{Canary}
use vpn_pi.Canary.Replay.{IsFresh}
use vpn_pi.Gate.{Gate, Event, requests, answers, closes, locks, exits, fires, open_request, run}
use vpn_pi.Gate.Replay.{Until, replay_refused}

Until-mono : {m n : ℕ} (es : List Event) → m ≤ n → All (Until m) es → All (Until n) es
Until-mono [] h a = tt
Until-mono (requests c now ∷ es) h (k, a) = (omega arith, Until-mono es h a)
Until-mono (answers k d ∷ es) h (_, a) = (tt, Until-mono es h a)
Until-mono (closes reason now ∷ es) h (_, a) = (tt, Until-mono es h a)
Until-mono (locks ∷ es) h (_, a) = (tt, Until-mono es h a)
Until-mono (exits ok at ∷ es) h (_, a) = (tt, Until-mono es h a)
Until-mono (fires now ∷ es) h (_, a) = (tt, Until-mono es h a)

-- If the gate keeps nonces for twice the freshness window, a canary that was let through is refused
-- whenever it still passes the freshness check, whatever happens in between.
pub fresh_replay_refused :
    (p : Platform) (g : Gate) (c : Canary) (freshness_seconds now later : ℕ) (es : List Event)
    → freshness_seconds + freshness_seconds ≤ g.nonce_prune_seconds
    → IsFresh p freshness_seconds now c
    → (open_request c now g).1 ≡ true
    → All (Until later) es
    → IsFresh p freshness_seconds later c
    → (open_request c later (run (open_request c now g).0 es)).1 ≡ false
fresh_replay_refused p g c freshness_seconds now later es enough first passed until second =
    let same : first.issued ≡ second.issued = cc in
    let bound : later ≤ now + g.nonce_prune_seconds * 1000 = omega arith in
    replay_refused g c c now later es passed refl (Until-mono es bound until) bound
