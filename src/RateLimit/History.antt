-- ===== src/RateLimit/History.antt =====
-- The limiter of core/ratelimit.ts against the full history of the calls.
use vpn_pi.Common.{
  ℕ, ◌≤◌, ◌≡◌, refl, Bool, true, List, [], ◌∷◌, ◌++◌, Str, str_eq, str_beq, str_beq_iff, ◌==◌,
  length, filterb, filterb-filterb, filterb-append, leb, nat_beq, nat_beq_iff, if◌then◌else◌, arith,
  ◌∙◌, Bool-cases, inl, inr, ap,
}
use vpn_pi.Common.Maps
use vpn_pi.RateLimit.{Limiter, stored, in_window, recent, locked, fail, reset}

pub data Call : Type 0 where
  asks : Str → ℕ → Call
  fails : Str → (now pushed : ℕ) → Call
  resets : Str → Call

unfoldable pub step : Limiter → Call → Limiter
step l (asks key now) = (locked key now l).1
step l (fails key now pushed) = fail key now pushed l
step l (resets key) = reset key l

unfoldable pub run : Limiter → List Call → Limiter
run l [] = l
run l (c ∷ cs) = run (step l c) cs

-- The specification keeps every failure since the last reset of the address.
unfoldable pub note : Str → List ℕ → Call → List ℕ
note key fs (asks k now) = fs
note key fs (fails k now pushed) = if k == key then fs ++ pushed ∷ [] else fs
note key fs (resets k) = if k == key then [] else fs

unfoldable pub failures : Str → List ℕ → List Call → List ℕ
failures key fs [] = fs
failures key fs (c ∷ cs) = failures key (note key fs c) cs

-- The clock does not run backwards: no reading is below `t`, and none after the last is above `end`.
abbrev pub Ordered : ℕ → ℕ → List Call → Type 0
Ordered t end [] = t ≤ end
Ordered t end (asks k now ∷ cs) = (t ≤ now) × Ordered now end cs
Ordered t end (fails k now pushed ∷ cs) = (t ≤ now) × (now ≤ pushed) × Ordered pushed end cs
Ordered t end (resets k ∷ cs) = Ordered t end cs

nil_of_length : (xs : List ℕ) → nat_beq (length xs) 0 ≡ true → xs ≡ []
nil_of_length [] h = refl
nil_of_length (x ∷ xs) h = absurd (omega (arith, (nat_beq_iff (length (x ∷ xs)) 0).0 h))

stored-recent :
    (key j : Str) (now : ℕ) (l : Limiter)
    → stored j (recent key now l).1
      ≡ (if key == j then filterb (in_window l.window_ms now) (stored j l) else stored j l)
unfolding recent
stored-recent key j now l =
    let kept = filterb (in_window l.window_ms now) (stored key l) in
    ground (
      arith,
      nil_of_length kept,
      Maps.get-set key j kept l.hits,
      Maps.get-delete key j l.hits,
      str_beq_iff key j,
    )

recent-kept :
    (key : Str) (now : ℕ) (l : Limiter)
    → (recent key now l).0 ≡ filterb (in_window l.window_ms now) (stored key l)
unfolding recent
recent-kept key now l = ground arith

recent-window :
    (key : Str) (now : ℕ) (l : Limiter)
    → ((recent key now l).1.window_ms ≡ l.window_ms) × ((recent key now l).1.max ≡ l.max)
unfolding recent
recent-window key now l = ground arith

pub step-window :
    (l : Limiter) (c : Call) → ((step l c).window_ms ≡ l.window_ms) × ((step l c).max ≡ l.max)
unfolding step locked fail reset
step-window l (asks key now) = recent-window key now l
step-window l (fails key now pushed) = recent-window key now l
step-window l (resets key) = (refl, refl)

-- What the limiter keeps for `j` and the full history agree on every window that is still to come.
abbrev Agrees : Limiter → Str → ℕ → List ℕ → Type 0
Agrees l j t fs =
    (now : ℕ)
    → t ≤ now
    → filterb (in_window l.window_ms now) (stored j l) ≡ filterb (in_window l.window_ms now) fs

prune-Agrees :
    (w now later : ℕ) (xs : List ℕ)
    → now ≤ later
    → filterb (in_window w later) (filterb (in_window w now) xs) ≡ filterb (in_window w later) xs
prune-Agrees w now later xs h = filterb-filterb _ _ (λ a p. ground arith) xs

recent-Agrees :
    (key j : Str) (now t : ℕ) (l : Limiter) (fs : List ℕ)
    → t ≤ now
    → Agrees l j t fs
    → Agrees (recent key now l).1 j now fs
recent-Agrees key j now t l fs h a later k =
    let old = a later (omega arith) in
    rw ((recent-window key now l).0, stored-recent)
      (elim (Bool-cases (str_beq key j)) [
        | inl hit ↦ rw hit (prune-Agrees l.window_ms now later (stored j l) k ∙ old)
        | inr miss ↦ rw miss old
      ])

stored-fail :
    (key j : Str) (now pushed : ℕ) (l : Limiter)
    → stored j (fail key now pushed l)
      ≡ (if key == j then (recent key now l).0 ++ pushed ∷ [] else stored j (recent key now l).1)
unfolding fail
stored-fail key j now pushed l =
    let (a, l') = recent key now l in ground (arith, Maps.get-set key j (a ++ pushed ∷ []) l'.hits)

kept-stored :
    (key : Str) (now : ℕ) (l : Limiter) → (recent key now l).0 ≡ stored key (recent key now l).1
kept-stored key now l =
    ground (arith, recent-kept key now l, stored-recent key key now l, str_beq_iff key key)

fail-window :
    (key : Str) (now pushed : ℕ) (l : Limiter) → (fail key now pushed l).window_ms ≡ l.window_ms
fail-window key now pushed l = unfold fail in (recent-window key now l).0

fail-Agrees :
    (key j : Str) (now pushed t : ℕ) (l : Limiter) (fs : List ℕ)
    → t ≤ now
    → now ≤ pushed
    → Agrees l j t fs
    → Agrees (fail key now pushed l) j pushed (note j fs (fails key now pushed))
unfolding note
fail-Agrees key j now pushed t l fs h k a later m =
    let win : ℕ → Bool = in_window l.window_ms later in
    let old : filterb win (stored j (recent key now l).1) ≡ filterb win fs =
      rw (recent-window key now l).0 at (recent-Agrees key j now t l fs h a later (omega arith)) in
    rw (fail-window, stored-fail)
      (elim (Bool-cases (str_beq key j)) [
        | inl hit ↦
            let same : (recent key now l).0 ≡ stored j (recent key now l).1 =
              kept-stored key now l
              ∙ ap (λ k'. stored k' (recent key now l).1) ((str_beq_iff key j).0 hit) in
            rw (hit, filterb-append win, filterb-append win fs, same)
              (ap (λ xs. xs ++ filterb win (pushed ∷ [])) old)
        | inr miss ↦ rw miss old
      ])

reset-Agrees :
    (key j : Str) (t : ℕ) (l : Limiter) (fs : List ℕ)
    → Agrees l j t fs
    → Agrees (reset key l) j t (note j fs (resets key))
unfolding note reset filterb
reset-Agrees key j t l fs a later h = ground (arith, Maps.get-delete key j l.hits, a later h)

run-window :
    (l : Limiter) (cs : List Call) → ((run l cs).window_ms ≡ l.window_ms) × ((run l cs).max ≡ l.max)
unfolding run
run-window l [] = (refl, refl)
run-window l (c ∷ cs) =
    let (w, m) = run-window (step l c) cs in (w ∙ (step-window l c).0, m ∙ (step-window l c).1)

run-Agrees :
    (key : Str) (end t : ℕ) (l : Limiter) (fs : List ℕ) (cs : List Call)
    → Ordered t end cs
    → Agrees l key t fs
    → Agrees (run l cs) key end (failures key fs cs)
unfolding run failures step note locked
run-Agrees key end t l fs [] h a = λ now k. a now (omega arith)
run-Agrees key end t l fs (asks k now ∷ cs) (h, o) a =
    run-Agrees key end now (recent k now l).1 fs cs o (recent-Agrees k key now t l fs h a)
run-Agrees key end t l fs (fails k now pushed ∷ cs) (h, h', o) a =
    run-Agrees key end pushed (fail k now pushed l) (note key fs (fails k now pushed)) cs o
      (fail-Agrees k key now pushed t l fs h h' a)
run-Agrees key end t l fs (resets k ∷ cs) o a =
    run-Agrees key end t (reset k l) (note key fs (resets k)) cs o (reset-Agrees k key t l fs a)

-- After any history of calls, of every address and with a clock that does not run backwards, an
-- address is locked out exactly if at least `max` of its failures since its last reset lie in the
-- window that ends now: pruning on every call loses nothing, and no other address matters.
pub locked-run :
    (key : Str) (max window_ms end : ℕ) (cs : List Call)
    → Ordered 0 end cs
    → (locked key end (run (record { max = max; window_ms = window_ms; hits = [] }) cs)).0
      ≡ leb max (length (filterb (in_window window_ms end) (failures key [] cs)))
unfolding locked Maps.get
locked-run key max window_ms end cs o =
    let l : Limiter = record { max = max; window_ms = window_ms; hits = [] } in
    let agree = run-Agrees key end 0 l [] cs o (λ now h. refl) end (omega arith) in
    rw (recent-kept, agree, (run-window l cs).0, (run-window l cs).1)
