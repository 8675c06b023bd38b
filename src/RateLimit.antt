-- ===== src/RateLimit.antt =====
-- core/ratelimit.ts: failed attempts for each source address in a sliding window. The clock is an
-- argument: every reading of `this.now()` is one value, in milliseconds.
pub mod History
use vpn_pi.Common.{
  ℕ, ◌+◌, Bool, true, false, List, [], ◌∷◌, ◌++◌, Str, str_eq, length, filterb, ltb, leb, nat_beq,
  not, if◌then◌else◌, get_or,
}
use vpn_pi.Common.Maps
use vpn_pi.Common.Maps.{Map}

pub record Limiter : Type 0 where
  pub max : ℕ
  pub window_ms : ℕ
  pub hits : Map Str (List ℕ)

abbrev pub stored : Str → Limiter → List ℕ
stored key l = get_or (Maps.get key l.hits) []

-- `t > now - windowMs`; the source's difference may be negative, so the window is added instead.
abbrev pub in_window : ℕ → ℕ → ℕ → Bool
in_window window now t = ltb now (t + window)

unfoldable pub recent : Str → ℕ → Limiter → List ℕ × Limiter
recent key now l =
    let kept = filterb (in_window l.window_ms now) (stored key l) in
    if not (nat_beq (length kept) 0)
    then (kept, record l { hits = Maps.set key kept l.hits })
    else (kept, record l { hits = Maps.delete key l.hits })

unfoldable pub locked : Str → ℕ → Limiter → Bool × Limiter
locked key now l = let (kept, l') = recent key now l in (leb l.max (length kept), l')

-- `fail` reads the clock twice: `recent` at `now`, and the time that is pushed.
unfoldable pub fail : Str → ℕ → ℕ → Limiter → Limiter
fail key now pushed l =
    let (a, l') = recent key now l in record l' { hits = Maps.set key (a ++ pushed ∷ []) l'.hits }

unfoldable pub reset : Str → Limiter → Limiter
reset key l = record l { hits = Maps.delete key l.hits }
