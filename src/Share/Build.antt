-- ===== src/Share/Build.antt =====
-- buildShare of core/share.ts: which share the environment asks for.
use vpn_pi.Common.{ℕ, Option, none, some, [], Str, lit, str_eq, nat_eq, ◌==◌, get_or, if◌then◌else◌}
use vpn_pi.Errors.{Thrown, other_error}
use vpn_pi.Errors.Result.{Result, ok, err}
use vpn_pi.Share.{default_share_max_bytes}

-- The variables that are read; `none` is one that is not set.
pub record ShareEnv : Type 0 where
  pub share : Option Str
  pub max_bytes : Option Str
  pub db_path : Option Str
  pub url : Option Str

pub data Backend : Type 0 where
  memory : (max_total_bytes : ℕ) → Backend
  sqlite : (path root_label bind : Str) → (max_total_bytes : ℕ) → Backend
  remote : (base : Str) → Backend

-- `Number(text) || DEFAULT_SHARE_MAX_BYTES`; `to_whole` is `Number` of a text, `none` for NaN.
unfoldable pub max_of : (to_whole : Str → Option ℕ) → Option Str → ℕ
max_of to_whole none = default_share_max_bytes
max_of to_whole (some text) =
    let n = get_or (to_whole text) 0 in if n == 0 then default_share_max_bytes else n

-- The constructor of RemoteFileShare throws without an address.
abbrev remote_backend : (base : Str) → Result Thrown Backend
remote_backend base = if base == [] then err other_error else ok (remote base)

unfoldable pub build_share : (to_whole : Str → Option ℕ) → ShareEnv → Result Thrown Backend
unfolding max_of
build_share to_whole env =
    let kind = get_or env.share (lit "memory") in
    let max = max_of to_whole env.max_bytes in
    if kind == lit "memory"
    then ok (memory max)
    else if kind == lit "sqlite"
    then ok (
        sqlite (get_or env.db_path (lit "/var/lib/islandd/island.db")) (lit "vega:island.db")
          (lit "wg0:8787") max)
    else if kind == lit "remote"
    then remote_backend (get_or env.url [])
    else err other_error
