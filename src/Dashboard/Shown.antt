-- ===== src/Dashboard/Shown.antt =====
-- What a poll of the dashboard shows (gui-and-app/frontend/src/api.ts), by the answers that
-- reached it.
use vpn_pi.Common.{
  ℕ, ◌≡◌, refl, Bool, true, false, Bool-cases, inl, inr, Option, none, some, List, [], ◌∷◌, Str,
  if◌then◌else◌,
}
use vpn_pi.Dashboard.{
  View, empty_view, Outcome, loaded, unauthorized, failed, Control, Page, Event, mounts, unmounts,
  ticks, settles, logs_in, move, reaches, show, step, run,
}

module _ {A : Type 0} where
  -- The outcomes that reach the screen, the last one first.
  abbrev pub noted : Control → Event A → List (Outcome A) → List (Outcome A)
  noted c (settles o) os = if reaches c o then o ∷ os else os
  noted c mounts os = os
  noted c unmounts os = os
  noted c ticks os = os
  noted c (logs_in t) os = os

  unfoldable pub delivered : List (Event A) → Control → List (Outcome A) → List (Outcome A)
  delivered [] c os = os
  delivered (e ∷ es) c os = delivered es (move e c) (noted c e os)

  -- The last answer with its time.
  unfoldable pub last_loaded : List (Outcome A) → Option (A × ℕ)
  last_loaded [] = none
  last_loaded (loaded a now ∷ os) = some (a, now)
  last_loaded (unauthorized ∷ os) = last_loaded os
  last_loaded (failed m ∷ os) = last_loaded os

  abbrev pub is_failure : List (Outcome A) → Bool
  is_failure [] = false
  is_failure (loaded a now ∷ os) = false
  is_failure (unauthorized ∷ os) = true
  is_failure (failed m ∷ os) = true

  abbrev pub is_refusal : List (Outcome A) → Bool
  is_refusal [] = false
  is_refusal (loaded a now ∷ os) = false
  is_refusal (unauthorized ∷ os) = true
  is_refusal (failed m ∷ os) = false

  abbrev pub value_of : Option (A × ℕ) → Option A
  value_of none = none
  value_of (some (a, now)) = some a

  abbrev pub time_of : Option (A × ℕ) → Option ℕ
  time_of none = none
  time_of (some (a, now)) = some now

  -- The screen by the outcomes: the last answer stays, and the newest outcome says the rest.
  pub record IsShown (os : List (Outcome A)) (v : View A) : Type 0 where
    contents : v.contents ≡ value_of (last_loaded os)
    last_ok : v.last_ok ≡ time_of (last_loaded os)
    stale : v.stale ≡ is_failure os
    auth_required : v.auth_required ≡ is_refusal os

  show-IsShown :
      (o : Outcome A) (os : List (Outcome A)) (v : View A)
      → IsShown os v
      → IsShown (o ∷ os) (show o v)
  unfolding show last_loaded
  show-IsShown (loaded a now) os v h = record {
    contents = refl;
    last_ok = refl;
    stale = refl;
    auth_required = refl;
  }
  show-IsShown unauthorized os v h = record {
    contents = h.contents;
    last_ok = h.last_ok;
    stale = refl;
    auth_required = refl;
  }
  show-IsShown (failed m) os v h = record {
    contents = h.contents;
    last_ok = h.last_ok;
    stale = refl;
    auth_required = refl;
  }

  step-IsShown :
      (e : Event A) (p : Page A) (os : List (Outcome A))
      → IsShown os p.view
      → IsShown (noted p.control e os) (step e p).view
  unfolding step
  step-IsShown mounts p os h = h
  step-IsShown unmounts p os h = h
  step-IsShown ticks p os h = h
  step-IsShown (logs_in t) p os h = h
  step-IsShown (settles o) p os h = elim (Bool-cases (reaches p.control o)) [
    | inl there ↦ rw there (show-IsShown o os p.view h)
    | inr lost ↦ rw lost h
  ]

  run-IsShown_from :
      (es : List (Event A)) (p : Page A) (os : List (Outcome A))
      → IsShown os p.view
      → IsShown (delivered es p.control os) (run es p).view
  unfolding run delivered move step
  run-IsShown_from [] p os h = h
  run-IsShown_from (e ∷ es) p os h =
      run-IsShown_from es (step e p) (noted p.control e os) (step-IsShown e p os h)

  -- A poll that begins empty, after any mounts, unmounts, ticks, logins and ends of its requests,
  -- shows the last answer that reached it and its time, whatever failed since, is stale exactly
  -- when the newest outcome that reached it is a failure, and asks for the password exactly when
  -- that is a 401.
  pub run-IsShown :
      (es : List (Event A)) (token : Option Str) (c : Control)
      → IsShown
          (delivered es c [])
          (run es (record { token = token; control = c; view = empty_view })).view
  unfolding empty_view last_loaded
  run-IsShown es token c =
      run-IsShown_from es (record { token = token; control = c; view = empty_view }) []
        (record { contents = refl; last_ok = refl; stale = refl; auth_required = refl })
