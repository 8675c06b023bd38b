-- ===== src/Boot.antt =====
-- main.ts, lines 66 to 186: the arguments and settings that the daemon starts with, and its
-- administrator's token. `to_whole` is Number(…) of a text, `none` where it is not finite, and 0
-- where it is negative; a setting that is no integer is outside of the model.
pub mod Restart
use vpn_pi.Common.{
  ℕ, Bool, true, false, not, Option, none, some, List, [], ◌∷◌, Str, lit, str_eq, nat_eq, ◌==◌,
  trim, if◌then◌else◌,
}
use vpn_pi.Errors.{Thrown, other_error}
use vpn_pi.Errors.Result.{Result, ok, err, ◌>>=◌}

pub record Args : Type 0 where
  pub mock : Bool
  pub host : Str
  pub port : ℕ

pub record Address : Type 0 where
  pub is_ipv4 : Bool
  pub internal : Bool
  pub address : Str

-- `addrs.find(…)`, for the family that is asked for.
unfoldable pub find_external : (ipv4 : Bool) → List Address → Option Str
find_external ipv4 [] = none
find_external ipv4 (a ∷ as') =
    let rest = find_external ipv4 as' in
    if a.internal
    then rest
    else if a.is_ipv4
    then (if ipv4 then some a.address else rest)
    else (if ipv4 then rest else some a.address)

abbrev first_some : Option Str → Option Str → Str → Str
first_some (some a) other d = a
first_some none (some a) d = a
first_some none none d = d

-- `addrs` are the interface's addresses, which are IPv4 or IPv6.
unfoldable pub resolve_host : (explicit : Str) → (mock : Bool) → (addrs : List Address) → Str
resolve_host explicit mock addrs =
    if not (explicit == [])
    then explicit
    else if mock
    then lit "127.0.0.1"
    else first_some (find_external true addrs) (find_external false addrs) (lit "127.0.0.1")

abbrev positive : Option ℕ → Result Thrown ℕ
positive none = err other_error
positive (some n) = if n == 0 then err other_error else ok n

pub data Flag : Type 0 where
  mock_flag host_flag port_flag unknown : Flag

abbrev pub flag_of : Str → Flag
flag_of a =
    if a == lit "--mock"
    then mock_flag
    else if a == lit "--host"
    then host_flag
    else if a == lit "--port"
    then port_flag
    else unknown

module _ (to_whole : Str → Option ℕ) where
  unfoldable pub num_config : Option Str → (fallback : ℕ) → Result Thrown ℕ
  num_config none fallback = ok fallback
  num_config (some raw) fallback = if raw == [] then ok fallback else positive (to_whole raw)

  abbrev with_port : Args → Result Thrown ℕ → Result Thrown Args
  with_port args (ok n) = ok (record args { port = n })
  with_port args (err e) = err e

  -- The loop over the arguments that are left; an option at the end has no value.
  unfoldable pub parse_from : List Str → Args → Result Thrown Args
  parse_from [] args = ok args
  parse_from (a ∷ []) args = elim (flag_of a) [
    | mock_flag ↦ ok (record args { mock = true })
    | host_flag ↦ ok (record args { host = [] })
    | port_flag ↦ with_port args (num_config none 8787)
    | unknown ↦ err other_error
  ]
  parse_from (a ∷ value ∷ rest) args = elim (flag_of a) [
    | mock_flag ↦ parse_from (value ∷ rest) (record args { mock = true })
    | host_flag ↦ parse_from rest (record args { host = value })
    | port_flag ↦ with_port args (num_config (some value) 8787) >>= λ args'. parse_from rest args'
    | unknown ↦ err other_error
  ]

  -- `env_port` is ISLAND_PORT.
  unfoldable pub parse_args : (env_port : Option Str) → List Str → Result Thrown Args
  parse_args env_port argv = do
    port ← num_config env_port 8787
    parse_from argv (record { mock = false; host = []; port = port })

-- The data directory: the file of the token, and the marker of the first run.
pub record DataDir : Type 0 where
  pub admin_token : Option Str
  pub first_run : Bool

-- `env` is ISLAND_ADMIN_TOKEN, and `fresh` is the text of 18 random bytes.
unfoldable pub provision_admin_token : (mock : Bool) → (env fresh : Str) → DataDir → Str × DataDir
provision_admin_token true env fresh dir = ([], dir)
provision_admin_token false env fresh dir =
    if not (env == []) then (env, dir) else elim dir.admin_token [
      | some saved ↦ (trim saved, dir)
      | none ↦ (fresh, record { admin_token = some fresh; first_run = true })
    ]
