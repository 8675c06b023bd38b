-- ===== src/Node/FirstRun.antt =====
-- The generated administrator's token, which main.ts shows to the first visitor.
use vpn_pi.Common.{
  ℕ, ◌+◌, ◌-◌, ◌<◌, ◌∙◌, nat_eq, nat_beq_iff, ◌==◌, ◌≤◌, ◌≡◌, refl, Bool, true, false, Bool-cases,
  inl, inr, ◌&&◌, List, [], ◌∷◌, lit, str_eq, str_beq, is_some, arith, if◌then◌else◌,
}
use vpn_pi.Json.{Json, str, obj, property, as_text}
use vpn_pi.Platform.{Platform}
use vpn_pi.Friends.History
use vpn_pi.Node.State.{Runtime, Config, World, Http, Node, Answer, json, persist}
use vpn_pi.Node.Admin.{hides_token, first_run_route, revealed, unlink_marker}
use vpn_pi.Node.Routes.{Route, get_first_run, handle, route_of, answer_of, serve}
use vpn_pi.Node.Run.{
  Event, serves, model_answers, lock_frees, helper_exits, timer_fires, marker_goes, disk_changes,
  persist_if, step,
}
use vpn_pi.Node.Within.{Respects, with_book, persisted}
use vpn_pi.Node.Handled.{serve-Within}

-- The answer to a request at the first-run page that carries a token.
abbrev is_first_run : Route → Bool
is_first_run get_first_run = true
is_first_run _ = false

abbrev has_token : Answer → Bool
has_token (json status v) = is_some (as_text (property (lit "token") v))
has_token _ = false

module _ (rt : Runtime) (cfg : Config) where
  -- An answer that shows the token: to a request at once, or to a visitor who waited.
  unfoldable pub reveals : Node → Event → Bool
  reveals n (serves w req) = is_first_run (route_of req) && has_token (serve rt cfg w req n).0
  reveals n (marker_goes removed) = is_some (revealed n)
  reveals n _ = false

  -- How many answers show the token.
  unfoldable pub count_reveals : Node → List Event → ℕ
  count_reveals n [] = 0
  count_reveals n (e ∷ es) = (if reveals n e then 1 else 0) + count_reveals (step rt cfg n e) es

-- Without the marker nobody new waits for the token, and the marker does not come back.
abbrev NoNewVisitor : Node → Node → Type 0
NoNewVisitor n m = n.first_run ≡ false → (m.first_run ≡ false) × (m.revealing ≡ n.revealing)

persisted-marker :
    (n : Node) → ((persisted n).first_run ≡ n.first_run) × ((persisted n).revealing ≡ n.revealing)
unfolding persist
persisted-marker n = ground arith

visitors-Respects : (p : Platform) → Respects p NoNewVisitor
visitors-Respects p = record {
  order = record {
    same = λ n h. (h, refl);
    then_also = λ a b c h k s.
        let (gone, same) = h s in let (gone', same') = k gone in (gone', same' ∙ same);
  };
  limiter = λ n l h. (h, refl);
  call = λ n c h. ground (arith, persisted-marker (with_book n (History.step p n.ctx.book c)));
  mail = λ n m h. ground (arith, persisted-marker (record n { messages = m }));
  marking = λ n m h. (h, refl);
  gating = λ n g h. (h, refl);
  sharing = λ n s h. (h, refl);
  sending = λ n ds h. (h, refl);
  visiting = λ n there h. absurd (cc);
}

persist_if-marker : (b : Bool) (n : Node) → NoNewVisitor n (persist_if b n)
persist_if-marker true n h = ground (arith, persisted-marker n)
persist_if-marker false n h = (h, refl)

module _ (rt : Runtime) (cfg : Config) where
  -- A request is never answered with the token at once.
  handle-hides :
      (w : World) (req : Http) (n : Node) (r : Route)
      → (is_first_run r && has_token (answer_of rt cfg w req (handle rt cfg w req r n).0)) ≡ false
  unfolding handle first_run_route property as_text str_beq vpn_pi.Json.member
  handle-hides w req n get_first_run = elim (Bool-cases (hides_token rt cfg w req n)) [
    | inl hidden ↦ rw hidden refl
    | inr shown ↦ rw shown refl
  ]
  handle-hides w req n _ = ground arith

  -- Without the marker an event shows the token only to one who waits, who waits no more.
  step-revealing :
      (n : Node) (e : Event)
      → n.first_run ≡ false
      → ((step rt cfg n e).first_run ≡ false)
        × ((if reveals rt cfg n e then 1 else 0) + (step rt cfg n e).revealing ≤ n.revealing)
  unfolding step reveals serve unlink_marker revealed
  step-revealing n (serves w req) h =
      let (gone, same) = serve-Within rt cfg w req (visitors-Respects rt.platform) n h in
      let hidden = handle-hides w req n (route_of req) in (gone, rw hidden (omega (arith, same)))
  step-revealing n (model_answers k d) h =
      let (gone, same) = persist_if-marker _ _ h in (gone, omega (arith, same))
  step-revealing n lock_frees h = (h, omega arith)
  step-revealing n (helper_exits fine at) h =
      let (gone, same) = persist_if-marker _ _ h in (gone, omega (arith, same))
  step-revealing n (timer_fires now) h = (h, omega arith)
  step-revealing n (disk_changes writes) h = (h, omega arith)
  step-revealing n (marker_goes removed) h = ground (arith, nat_beq_iff n.revealing 0)

  no_marker-le :
      (n : Node) (es : List Event) → n.first_run ≡ false → count_reveals rt cfg n es ≤ n.revealing
  unfolding count_reveals
  no_marker-le n [] h = omega arith
  no_marker-le n (e ∷ es) h =
      let (gone, fewer) = step-revealing n e h in
      omega (arith, fewer, no_marker-le (step rt cfg n e) es gone)

  -- From the first successful removal of the marker on, whatever requests and events of the gate
  -- come, the first-run page shows the administrator's token at most as often as visitors were
  -- waiting when it took place: once if it was one.
  pub count_reveals-le :
      (n : Node) (es : List Event)
      → 0 < n.revealing
      → count_reveals rt cfg n (marker_goes true ∷ es) ≤ n.revealing
  unfolding count_reveals step reveals unlink_marker revealed
  count_reveals-le n es waiting =
      let left : Node = record n {
        revealing = n.revealing - 1;
        first_run = n.first_run && false;
      } in
      let gone : left.first_run ≡ false = ground arith in
      let somebody : (n.revealing == 0) ≡ false =
        ground (arith, nat_beq_iff n.revealing 0, waiting) in
      rw somebody (omega (arith, waiting, no_marker-le left es gone))
