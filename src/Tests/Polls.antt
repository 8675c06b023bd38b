-- ===== src/Tests/Polls.antt =====
-- A poll of the dashboard: loaded, refused, left and opened again.
use vpn_pi.Common.{ℕ, ◌≡◌, refl, none, false, List, [], ◌∷◌, lit}
use vpn_pi.Dashboard.{
  Event, mounts, unmounts, ticks, settles, logs_in, loaded, unauthorized, failed, Control, Page,
  empty_view, run,
}
use vpn_pi.Dashboard.Shown.{IsShown, delivered, run-IsShown}

abbrev morning : List (Event ℕ)
morning =
    mounts
    ∷ settles (loaded 7 100)
    ∷ ticks
    ∷ settles unauthorized
    ∷ logs_in (lit "t")
    ∷ ticks
    ∷ unmounts
    ∷ mounts
    ∷ settles (failed (lit "aborted"))
    ∷ []

abbrev idle : Control
idle = record { alive = false; running = none }

abbrev opened : Page ℕ
opened = record { token = none; control = idle; view = empty_view }

run-IsShown_example : IsShown (delivered morning idle []) (run morning opened).view
run-IsShown_example = run-IsShown morning none idle

-- A refusal of a request that began before a login ends the login.
abbrev late_refusal : List (Event ℕ)
late_refusal = ticks ∷ logs_in (lit "t") ∷ settles unauthorized ∷ []

late_refusal_logs_out : (run late_refusal opened).token ≡ none
unfolding run vpn_pi.Dashboard.step
late_refusal_logs_out = refl
