-- ===== src/Sysinfo/Ladder.antt =====
-- The ladder of link health of core/sysinfo.ts, and its two ends.
use vpn_pi.Common.{ℕ, ◌≤◌, ◌≡◌, ◌↔◌, ◌≢◌, true, some, arith}
use vpn_pi.Sysinfo.Links.{LinkState, link_ok, stale, degraded, classify_link, is_up}

-- How far down the ladder a state stands.
abbrev pub rung : LinkState → ℕ
rung link_ok = 0
rung stale = 1
rung degraded = 2

-- A link with an older handshake never stands higher on the ladder than one with a newer.
pub classify_link_mono :
    (a b : ℕ) → a ≤ b → rung (classify_link (some a)) ≤ rung (classify_link (some b))
unfolding classify_link
classify_link_mono a b h = ground arith

-- A peer that is up stands below the last rung of the ladder, except with a handshake that is
-- exactly 180 seconds old.
pub is_up_iff :
    (age : ℕ) → age ≢ 180 → (is_up (some age) ≡ true) ↔ (classify_link (some age) ≢ degraded)
unfolding classify_link
is_up_iff age h = ground arith
