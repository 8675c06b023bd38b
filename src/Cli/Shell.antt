-- ===== src/Cli/Shell.antt =====
-- What cli.ts runs in: the environment, the files of keys, the network and the terminal. A command is
-- a function on them that may fail.
use vpn_pi.Common.{
  ℕ, Bool, Option, none, some, List, [], ◌∷◌, ◌++◌, Str, lit, str_eq, ◌==◌, ltb, leb, ◌&&◌,
  if◌then◌else◌,
}
use vpn_pi.Common.Maps.{Map}
use vpn_pi.Errors.Result.{Result, ok, err}
use vpn_pi.Json.{Json, null, decimal, property, text_or_undefined}
use vpn_pi.Platform.{Bytes, Platform}
use vpn_pi.Identity.{Identity}
use vpn_pi.Sysinfo.Lines.{is_truthy}

-- The environment: an empty token is one that is not set. `join` is that of node:path, and
-- `number_json` what `JSON.stringify` prints of `Number(text)`.
pub record Env : Type 0 where
  pub platform : Platform
  pub addr : Str
  pub op_token : Str
  pub admin_token : Str
  pub canary_keyword : Option Str
  pub data_dir : Option Str
  pub join : Str → Str → Str
  pub number_json : Str → Json

-- What one run meets: fresh randomness, the clock, and the identity that `generateIdentity` makes.
pub record Fresh : Type 0 where
  pub random : Bytes
  pub entropy : ℕ
  pub now : ℕ
  pub identity : Identity

-- A `fetch`; it is a POST if it has a body.
pub record Call : Type 0 where
  pub url : Str
  pub admin_token : Option Str
  pub op_token : Option Str
  pub body : Option Json

-- What a call is answered: the status, and the body if it is JSON; `none` where `fetch` throws.
abbrev pub Net : Type 0 → Type 0
Net S = Call → S → Option (ℕ × Option Json) × S

pub data Line : Type 0 where
  words : Str → Line
  -- `console.log(v)` of a value
  value : Option Json → Line
  usage_text : Line

-- The text files by their paths.
pub record Shell (S : Type 0) : Type 0 where
  pub peer : S
  pub files : Map Str Str
  pub out : List Line

-- `said` is an Error with a message, `unexpected` a TypeError or another error of the runtime or
-- of the libraries, `exits` a `process.exit`.
pub data Fault : Type 0 where
  said : Str → Fault
  unexpected : Fault
  exits : ℕ → Fault

abbrev pub Cmd {ℓ} : Type 0 → Type ℓ → Type ℓ
Cmd S A = Shell S → Result Fault A × Shell S

module _ {S : Type 0} where
  module _ {ℓ κ} {A : Type ℓ} {B : Type κ} where
    abbrev pub continue : Result Fault A × Shell S → (A → Cmd S B) → Result Fault B × Shell S
    continue (ok a, s) next = next a s
    continue (err e, s) next = (err e, s)

    infixl 5 ◌>>=◌
    unfoldable pub ◌>>=◌ : Cmd S A → (A → Cmd S B) → Cmd S B
    (first >>= next) s = continue (first s) next

  infixl 5 ◌>>◌
  unfoldable pub ◌>>◌ {κ} : {B : Type κ} → Cmd S (Unit {0}) → Cmd S B → Cmd S B
  (first >> second) s = continue (first s) (λ u. second)

  -- A part that only computes.
  unfoldable pub lift {ℓ} : {A : Type ℓ} → Result Fault A → Cmd S A
  lift r s = (r, s)

  unfoldable pub print : Line → Cmd S (Unit {0})
  print l s = (ok tt, record s { out = s.out ++ l ∷ [] })

  unfoldable pub fetch : Net S → Call → Cmd S (Option (ℕ × Option Json))
  fetch net call s = let (answer, peer) = net call s.peer in (ok answer, record s { peer = peer })

abbrev pub header : Str → Option Str
header token = if token == [] then none else some token

-- `r.ok`.
abbrev pub is_success : ℕ → Bool
is_success status = leb 200 status && ltb status 300

-- `(j && j.error) || "HTTP <status>"`.
unfoldable pub error_text : (status : ℕ) → Json → Str
error_text status j =
    let error = property (lit "error") j in
    if is_truthy error then text_or_undefined error else lit "HTTP " ++ decimal status

-- `v.k`, which throws where `v` is undefined or null.
unfoldable pub child : Str → Option Json → Result Fault (Option Json)
child k none = err unexpected
child k (some null) = err unexpected
child k (some v) = ok (property k v)
