-- ===== src/Tests/Clients.antt =====
-- Runs of the command line client.
use vpn_pi.Common.{ℕ, ◌⊎◌, ◌≡◌, ◌≢◌, refl, none, some, List, [], ◌∷◌, ◌++◌, Str, lit, get_or, arith}
use vpn_pi.Common.Maps
use vpn_pi.Common.Maps.{Map}
use vpn_pi.Errors.Result.{ok}
use vpn_pi.Json.{null}
use vpn_pi.Codec.{to_b64}
use vpn_pi.Identity.{KeyFiles, load_identity, save_identity}
use vpn_pi.Canary.{verify_canary}
use vpn_pi.Cli.Flags.{parse_flags, read_flags, parse_flags-read_flags}
use vpn_pi.Cli.Shell.{Env, Fresh, Net, Shell, words}
use vpn_pi.Cli.Keys.{status, key_dir, run_cli}
use vpn_pi.Cli.Kept.{IsKept, IsGiven, run_cli-IsKept}
use vpn_pi.Cli.Mint.{run_cli-verify_canary}
use vpn_pi.Tests.Toy.{reading-IsLawful}
use vpn_pi.Tests.Books.{node}
use vpn_pi.Tests.Sealed.{canary_platform, canary-IsRead}

abbrev env : Env
env = record {
  platform = canary_platform;
  addr = lit "http://127.0.0.1:8787";
  op_token = [];
  admin_token = [];
  canary_keyword = none;
  data_dir = none;
  join = λ a b. a ++ (lit "/" ++ b);
  number_json = λ s. null;
}

abbrev fresh : Fresh
fresh = record { random = 5 ∷ []; entropy = 3; now = 1000; identity = node 7 }

-- A network where nothing answers.
abbrev offline : Net (Unit {0})
offline call s = (none, s)

abbrev files : KeyFiles
files = record (save_identity canary_platform (node 7)) { ed25519_pub = []; x25519_pub = [] }

abbrev shell : Shell (Unit {0})
shell = record {
  peer = tt;
  files =
      (lit "keys/ed25519.key", files.ed25519_key) ∷ (lit "keys/x25519.key", files.x25519_key) ∷ [];
  out = [];
}

abbrev vega_key : Str
vega_key = to_b64 canary_platform (9 ∷ 2 ∷ [])

abbrev arguments : List Str
arguments =
    lit "--admin-dir"
    ∷ lit "keys"
    ∷ lit "--to-x25519"
    ∷ vega_key
    ∷ lit "--text"
    ∷ lit "GREEN18 please"
    ∷ []

abbrev flags : Map Str Str
flags =
    (lit "admin-dir", lit "keys")
    ∷ (lit "to-x25519", vega_key)
    ∷ (lit "text", lit "GREEN18 please")
    ∷ []

not_empty : (c : ℕ) (a : Str) → c ∷ a ≢ []
not_empty c a e = absurd (cc)

arguments_parsed : parse_flags arguments ≡ some flags
unfolding parse_flags vpn_pi.Cli.Flags.get_elem? vpn_pi.Common.str_beq vpn_pi.Common.starts_with
    to_b64 Maps.set
arguments_parsed = refl

parse_flags-read_flags_example : parse_flags arguments ≡ some (read_flags none arguments [])
parse_flags-read_flags_example = parse_flags-read_flags arguments

run_cli-IsKept_example :
    IsKept shell (run_cli env fresh offline (lit "keygen" ∷ lit "keys" ∷ []) shell).1
    ⊎ ((rest : List Str) × (lit "keygen" ∷ lit "keys" ∷ [] ≡ lit "keygen" ∷ rest)
        × IsGiven env fresh offline
            (key_dir env fresh offline rest)
            shell
            (run_cli env fresh offline (lit "keygen" ∷ lit "keys" ∷ []) shell).1)
run_cli-IsKept_example = run_cli-IsKept env fresh offline (lit "keygen" ∷ lit "keys" ∷ []) shell

run_cli-verify_canary_example :
    (blob : Str) × (run_cli env fresh offline (lit "canary" ∷ arguments) shell
      ≡ (status 0, record shell { out = words blob ∷ [] }))
    × (verify_canary canary_platform (node 9) blob (λ s. some (7 ∷ 1 ∷ [])) (lit "GREEN18") 300 2000
        ≡ ok (record {
          admin = to_b64 canary_platform (7 ∷ 1 ∷ []);
          keyword = lit "GREEN18";
          text = lit "GREEN18 please";
          nonce = to_b64 canary_platform (5 ∷ []);
          issued = 1000 ∷ [];
        }))
unfolding Maps.get vpn_pi.Common.str_beq to_b64 load_identity vpn_pi.Codec.from_b64
    vpn_pi.Common.trim save_identity vpn_pi.Tests.Toy.drop_last vpn_pi.Tests.Toy.execute
    vpn_pi.Canary.canary_payload vpn_pi.Canary.first_token
run_cli-verify_canary_example =
    run_cli-verify_canary env fresh offline (reading-IsLawful _ _) arguments flags (lit "keys")
      files (node 7) (node 9) shell 300 2000 (λ s. some (7 ∷ 1 ∷ [])) arguments_parsed refl
      (not_empty _ _) refl (not_empty _ _) refl refl refl
      (record { public = refl; secret = refl; box = refl }) canary-IsRead refl refl (omega arith)
