-- ===== src/Daemon/Lockout.antt =====
-- The lockout of the operator routes (requireOperator of main.ts) against the history of requests.
use vpn_pi.Common.{
  ℕ, ◌≤◌, ◌≡◌, refl, sym, ap, subst, ◌∙◌, List, [], ◌∷◌, ◌++◌, Str, str_eq, ◌==◌, length, filterb,
  leb, if◌then◌else◌, arith, Bool-cases, inl, inr,
}
use vpn_pi.Errors.{Thrown, rate_limited, forbidden}
use vpn_pi.Errors.Result.{Result, ok, err}
use vpn_pi.RateLimit.{Limiter, in_window, locked}
use vpn_pi.RateLimit.History
use vpn_pi.RateLimit.History.{Call, asks, fails, resets, Ordered, failures, note, locked-run}
use vpn_pi.Daemon.{Request, Ctx, Knock, ip_or_mark, is_operator, require_operator, serve}

-- No reading of the clock is below the one before it, nor above `end`.
abbrev pub OrderedKnocks : ℕ → ℕ → List Knock → Type 0
OrderedKnocks t end [] = t ≤ end
OrderedKnocks t end (k ∷ ks) = (t ≤ k.now) × (k.now ≤ k.pushed) × OrderedKnocks k.pushed end ks

-- The times at which an address was answered "operator-only endpoint", since it last passed.
noted : Str → List ℕ → Knock → Result Thrown (Unit {0}) → List ℕ
noted key fs k (ok u) = if ip_or_mark k.req == key then [] else fs
noted key fs k (err forbidden) = if ip_or_mark k.req == key then fs ++ k.pushed ∷ [] else fs
noted key fs k (err e) = fs

module _ (sha256 : Str → List ℕ) where
  unfoldable pub refusals : Str → List ℕ → Ctx → List Knock → List ℕ
  unfolding noted
  refusals key fs ctx [] = fs
  refusals key fs ctx (k ∷ ks) =
      let (answer, ctx') = require_operator sha256 k.req k.now k.pushed ctx in
      refusals key (noted key fs k answer) ctx' ks

  -- The calls of the limiter that one request makes.
  calls_of : Ctx → Knock → List Call
  calls_of ctx k =
      let ip = ip_or_mark k.req in
      if (locked ip k.now ctx.auth_limiter).0
      then asks ip k.now ∷ []
      else if is_operator sha256 k.req ctx
      then asks ip k.now ∷ resets ip ∷ []
      else asks ip k.now ∷ fails ip k.now k.pushed ∷ []

  all_calls : Ctx → List Knock → List Call
  all_calls ctx [] = []
  all_calls ctx (k ∷ ks) =
      calls_of ctx k ++ all_calls (require_operator sha256 k.req k.now k.pushed ctx).1 ks

  one-run :
      (ctx : Ctx) (k : Knock)
      → (require_operator sha256 k.req k.now k.pushed ctx).1
        ≡ record ctx { auth_limiter = History.run ctx.auth_limiter (calls_of ctx k) }
  unfolding require_operator calls_of History.run History.step
  one-run ctx k = ground arith

  one-noted :
      (key : Str) (fs : List ℕ) (ctx : Ctx) (k : Knock)
      → noted key fs k (require_operator sha256 k.req k.now k.pushed ctx).0
        ≡ failures key fs (calls_of ctx k)
  unfolding require_operator calls_of noted failures note
  one-noted key fs ctx k = ground arith

  Ordered-weaken : (t t' end : ℕ) (cs : List Call) → t ≤ t' → Ordered t' end cs → Ordered t end cs
  Ordered-weaken t t' end [] h o = omega arith
  Ordered-weaken t t' end (asks k now ∷ cs) h (l, o) = (omega arith, o)
  Ordered-weaken t t' end (fails k now pushed ∷ cs) h (l, l', o) = (omega arith, l', o)
  Ordered-weaken t t' end (resets k ∷ cs) h o = Ordered-weaken t t' end cs h o

  one-Ordered :
      (t end : ℕ) (ctx : Ctx) (k : Knock) (cs : List Call)
      → t ≤ k.now
      → k.now ≤ k.pushed
      → Ordered k.pushed end cs
      → Ordered t end (calls_of ctx k ++ cs)
  unfolding calls_of
  one-Ordered t end ctx k cs h h' o =
      let later = Ordered-weaken k.now k.pushed end cs h' o in
      elim (Bool-cases (locked (ip_or_mark k.req) k.now ctx.auth_limiter).0) [
        | inl shut ↦ rw shut (h, later)
        | inr free ↦ elim (Bool-cases (is_operator sha256 k.req ctx)) [
          | inl operator ↦ rw (free, operator) (h, later)
          | inr other ↦
              let again : k.now ≤ k.now = omega arith in rw (free, other) (h, (again, h', o))
        ]
      ]

  calls-Ordered :
      (t end : ℕ) (ctx : Ctx) (ks : List Knock)
      → OrderedKnocks t end ks
      → Ordered t end (all_calls ctx ks)
  unfolding all_calls
  calls-Ordered t end ctx [] o = o
  calls-Ordered t end ctx (k ∷ ks) (h, h', o) =
      one-Ordered t end ctx k _ h h' (calls-Ordered k.pushed end _ ks o)

  run-append :
      (l : Limiter) (cs ds : List Call)
      → History.run l (cs ++ ds) ≡ History.run (History.run l cs) ds
  unfolding History.run
  run-append l [] ds = refl
  run-append l (c ∷ cs) ds = run-append (History.step l c) cs ds

  failures-append :
      (key : Str) (fs : List ℕ) (cs ds : List Call)
      → failures key fs (cs ++ ds) ≡ failures key (failures key fs cs) ds
  unfolding failures
  failures-append key fs [] ds = refl
  failures-append key fs (c ∷ cs) ds = failures-append key (note key fs c) cs ds

  serve-run :
      (ctx : Ctx) (ks : List Knock)
      → serve sha256 ctx ks
        ≡ record ctx { auth_limiter = History.run ctx.auth_limiter (all_calls ctx ks) }
  unfolding serve all_calls History.run
  serve-run ctx [] = refl
  serve-run ctx (k ∷ ks) =
      let next = (require_operator sha256 k.req k.now k.pushed ctx).1 in
      let one = one-run ctx k in
      serve-run next ks
      ∙ ap (λ (x : Ctx). record x { auth_limiter = History.run x.auth_limiter (all_calls next ks) })
          one
      ∙ ap (λ l. record ctx { auth_limiter = l })
          (sym (run-append ctx.auth_limiter (calls_of ctx k) (all_calls next ks)))

  refusals-failures :
      (key : Str) (ctx : Ctx) (ks : List Knock) (fs : List ℕ)
      → refusals key fs ctx ks ≡ failures key fs (all_calls ctx ks)
  unfolding refusals all_calls failures
  refusals-failures key ctx [] fs = refl
  refusals-failures key ctx (k ∷ ks) fs =
      let next = (require_operator sha256 k.req k.now k.pushed ctx).1 in
      refusals-failures key next ks _
      ∙ ap (λ x. failures key x (all_calls next ks)) (one-noted key fs ctx k)
      ∙ sym (failures-append key fs (calls_of ctx k) (all_calls next ks))

  -- After any sequence of requests to operator routes, from every address and with a clock that does
  -- not run backwards, a request is answered "too many attempts" exactly if its address was refused
  -- at least `max` times in the window that ends now, since it last passed, whatever tokens it
  -- carries now; any other request passes exactly if it is the operator's.
  pub require_operator-serve :
      (max window_ms end pushed : ℕ) (ctx : Ctx) (ks : List Knock) (req : Request)
      → ctx.auth_limiter ≡ record { max = max; window_ms = window_ms; hits = [] }
      → OrderedKnocks 0 end ks
      → (require_operator sha256 req end pushed (serve sha256 ctx ks)).0 ≡ (
          if leb max
            (length (filterb (in_window window_ms end) (refusals (ip_or_mark req) [] ctx ks)))
          then err rate_limited
          else if is_operator sha256 req ctx
          then ok tt
          else err forbidden)
  unfolding require_operator is_operator
  require_operator-serve max window_ms end pushed ctx ks req new o =
      let key = ip_or_mark req in
      let calls = all_calls ctx ks in
      let shut = locked-run key max window_ms end calls (calls-Ordered 0 end ctx ks o) in
      let shut' =
        subst
          (λ l.
            (locked key end (History.run l calls)).0
            ≡ leb max (length (filterb (in_window window_ms end) (failures key [] calls))))
          (sym new) shut in
      rw (serve-run ctx ks, refusals-failures key ctx ks [], shut') (ground arith)
