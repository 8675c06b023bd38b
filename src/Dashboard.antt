-- ===== src/Dashboard.antt =====
-- The polls of the dashboard (gui-and-app/frontend/src/api.ts): the token of the view password and
-- one `usePoll`. Between its waits the code runs alone, so each event is one step.
pub mod Shown
use vpn_pi.Common.{
  ℕ, Bool, true, false, not, ◌&&◌, ◌||◌, Option, none, some, List, [], ◌∷◌, Str, lit, is_some,
  if◌then◌else◌,
}

-- `Poll<T>`.
pub record View (A : Type 0) : Type 0 where
  pub contents : Option A
  pub stale : Bool
  pub last_ok : Option ℕ
  pub error : Option Str
  pub auth_required : Bool

unfoldable pub empty_view : {A : Type 0} → View A
empty_view = record {
  contents = none;
  stale = false;
  last_ok = none;
  error = none;
  auth_required = false;
}

-- How a request ends: with JSON at a time, with a 401, or with another status, no connection or no
-- JSON, or an abort.
pub data Outcome (A : Type 0) : Type 0 where
  loaded : A → (now : ℕ) → Outcome A
  unauthorized : Outcome A
  failed : (message : Str) → Outcome A

-- The refs of a poll: whether it is mounted, and its request, if one runs, with whether that was
-- aborted.
pub record Control : Type 0 where
  pub alive : Bool
  pub running : Option Bool

pub record Page (A : Type 0) : Type 0 where
  pub token : Option Str
  pub control : Control
  pub view : View A

-- `ticks` is the interval or a `refetch`, `logs_in` a login that
-- succeeds.
pub data Event (A : Type 0) : Type 0 where
  mounts unmounts ticks : Event A
  settles : Outcome A → Event A
  logs_in : Str → Event A

-- `tick` up to the request: a request that runs is left alone.
unfoldable pub tick : Control → Control
tick c = if is_some c.running then c else record c { running = some false }

abbrev aborted_if : Option Bool → Option Bool
aborted_if none = none
aborted_if (some aborted) = some true

unfoldable pub move : {A : Type 0} → Event A → Control → Control
unfolding tick
move mounts c = tick (record c { alive = true })
move unmounts c = record { alive = false; running = aborted_if c.running }
move ticks c = tick c
move (settles o) c = record c { running = none }
move (logs_in t) c = c

abbrev was_aborted : Option Bool → Bool
was_aborted none = false
was_aborted (some aborted) = aborted

-- Whether the end of a request reaches the screen: an answer if the poll is mounted, an error if
-- in addition its request was not aborted.
unfoldable pub reaches : {A : Type 0} → Control → Outcome A → Bool
reaches c (loaded a now) = is_some c.running && c.alive
reaches c unauthorized = is_some c.running && (c.alive && not (was_aborted c.running))
reaches c (failed m) = is_some c.running && (c.alive && not (was_aborted c.running))

-- `setState`.
unfoldable pub show : {A : Type 0} → Outcome A → View A → View A
show (loaded a now) v = record {
  contents = some a;
  stale = false;
  last_ok = some now;
  error = none;
  auth_required = false;
}
show unauthorized v = record v {
  stale = true;
  auth_required = true;
  error = some (lit "view password required");
}
show (failed m) v = record v { stale = true; auth_required = false; error = some m }

-- `getJSON` clears the token on every 401, also when nothing is shown.
unfoldable pub token_after : {A : Type 0} → Control → Event A → Option Str → Option Str
token_after c (settles unauthorized) token = if is_some c.running then none else token
token_after c (logs_in t) token = some t
token_after c _ token = token

abbrev pub shown_after : {A : Type 0} → Control → Event A → View A → View A
shown_after c (settles o) v = if reaches c o then show o v else v
shown_after c _ v = v

unfoldable pub step : {A : Type 0} → Event A → Page A → Page A
unfolding token_after reaches move show
step e p = record {
  token = token_after p.control e p.token;
  control = move e p.control;
  view = shown_after p.control e p.view;
}

unfoldable pub run : {A : Type 0} → List (Event A) → Page A → Page A
run [] p = p
run (e ∷ es) p = run es (step e p)
