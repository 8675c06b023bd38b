-- ===== src/Cli/Keys.antt =====
-- cli.ts: the commands that use key files, keygen and canary, and `runCli` over all commands.
use vpn_pi.Common.{
  ℕ, Bool, true, false, Option, none, some, List, [], ◌∷◌, ◌++◌, Str, lit, str_eq, ◌==◌, get_or,
  if◌then◌else◌,
}
use vpn_pi.Common.Maps
use vpn_pi.Common.Maps.{Map}
use vpn_pi.Errors.Result.{Result, ok, err, or_throw}
use vpn_pi.Json.{Json, null, str, property, text_or_undefined}
use vpn_pi.Codec.{to_b64}
use vpn_pi.Identity.{Identity, KeyFiles, load_identity, save_identity}
use vpn_pi.Canary.{make_canary}
use vpn_pi.Sysinfo.Lines.{is_truthy}
use vpn_pi.Node.Json.{object}
use vpn_pi.Cli.Flags.{parse_flags}
use vpn_pi.Cli.Shell.{
  Env, Fresh, Net, words, Shell, Fault, said, unexpected, exits, Cmd, ◌>>=◌, ◌>>◌, lift, print,
  fetch, header, is_success,
}
use vpn_pi.Cli.Friend.{head?, usage, friend_command}

-- How a run ends: with a status, or with an error that nothing catches.
pub data Exit : Type 0 where
  status : ℕ → Exit
  uncaught : Exit

abbrev some_or : Option Str → Option Str → Option Str
some_or none later = later
some_or (some a) later = some a

-- An option that the command needs; without it the usage goes to the error output.
abbrev needed : Option Str → Result Fault Str
needed none = err (exits 2)
needed (some a) = if a == [] then err (exits 2) else ok a

-- `j.reason ?? "no reason"`.
abbrev reason_or : Option Json → Str
reason_or none = lit "no reason"
reason_or (some null) = lit "no reason"
reason_or (some v) = text_or_undefined (some v)

-- The line on the gate: its state, and when it closes.
abbrev gate_line : Json → Str
gate_line gate =
    let closes_at = property (lit "closes_at") gate in
    lit "gate: "
    ++ (text_or_undefined (property (lit "state") gate)
        ++ (if is_truthy closes_at
            then lit " (recloses " ++ (text_or_undefined closes_at ++ lit ")")
            else []))

module _ (env : Env) (fresh : Fresh) {S : Type 0} (net : Net S) where
  open env use {platform}

  abbrev pub key_path : (dir : Str) → Str
  key_path dir = env.join dir (lit "ed25519.key")

  abbrev both_keys : (ed x : Option Str) → Option KeyFiles
  both_keys none x = none
  both_keys (some ed) none = none
  both_keys (some ed) (some x) =
      some (record { ed25519_key = ed; ed25519_pub = []; x25519_key = x; x25519_pub = [] })

  -- The files that `loadIdentity` reads; it leaves the .pub files.
  abbrev pub read_keys : (dir : Str) → Map Str Str → Option KeyFiles
  read_keys dir files =
      both_keys (Maps.get (key_path dir) files) (Maps.get (env.join dir (lit "x25519.key")) files)

  unfoldable pub load_keys : (dir : Str) → Cmd S Identity
  load_keys dir s = (
    elim (read_keys dir s.files) [
      | none ↦ err unexpected
      | some k ↦ or_throw (load_identity platform k) unexpected
    ],
    s,
  )

  -- Each of the four files is written, whether or not it is there.
  unfoldable pub write_keys : (dir : Str) → KeyFiles → Map Str Str → Map Str Str
  write_keys dir k files = Maps.set (env.join dir (lit "x25519.pub")) k.x25519_pub (
      Maps.set (env.join dir (lit "x25519.key")) k.x25519_key (
        Maps.set (env.join dir (lit "ed25519.pub")) k.ed25519_pub
          (Maps.set (key_path dir) k.ed25519_key files)))

  unfoldable pub save_keys : (dir : Str) → Identity → Cmd S (Unit {0})
  save_keys dir id s =
      (ok tt, record s { files = write_keys dir (save_identity platform id) s.files })

  unfoldable pub keygen : (dir : Str) → Cmd S (Unit {0})
  keygen dir s =
      if Maps.has (key_path dir) s.files
      then (err (exits 1), s)
      else (do
        save_keys dir fresh.identity
        print (words (lit "identity written to " ++ dir))
        print (words (lit "this node's public key: " ++ to_b64 platform fresh.identity.ed_public)))
          s

  -- The lines on the gate after a canary is answered.
  unfoldable pub print_verdict : Json → Cmd S (Unit {0})
  print_verdict j = do
    let reason = property (lit "reason") j
    print (
        words (
          if is_truthy (property (lit "opened") j)
          then lit "Gate opened — " ++ text_or_undefined reason
          else lit "Denied — " ++ reason_or reason))
    (if is_truthy (property (lit "gate") j)
        then print (words (gate_line (get_or (property (lit "gate") j) null)))
        else lift (ok tt))

  unfoldable pub send_canary : (send : Str) → (admin_token blob : Str) → Cmd S (Unit {0})
  send_canary send admin_token blob = do
    answer ← fetch net (record {
      url = send ++ lit "/admin/canary";
      admin_token = header admin_token;
      op_token = none;
      body = some (object ((lit "blob", str blob) ∷ []));
    })
    lift (elim answer [
      | none ↦ err unexpected
      | some (code, body) ↦ if is_success code then ok tt else err (exits 1)
    ])
    print_verdict (elim answer [ none ↦ null | some (code, body) ↦ get_or body null ])

  -- Printed for delivery by hand, or sent.
  unfoldable pub delivered : (send : Option Str) → (admin_token blob : Str) → Cmd S (Unit {0})
  delivered none admin_token blob = print (words blob)
  delivered (some send) admin_token blob =
      if send == [] then print (words blob) else send_canary send admin_token blob

  abbrev pub keyword_of : Map Str Str → Str
  keyword_of f = get_or (some_or (Maps.get (lit "keyword") f) env.canary_keyword) (lit "GREEN18")

  abbrev pub text_of : Map Str Str → Str
  text_of f = get_or (Maps.get (lit "text") f) (keyword_of f ++ lit " open the gate")

  unfoldable pub mint_canary : (argv : List Str) → Cmd S (Unit {0})
  mint_canary argv = do
    let f = get_or (parse_flags argv) []
    let admin_token = get_or (Maps.get (lit "admin-token") f) env.admin_token
    dir ← lift (needed (Maps.get (lit "admin-dir") f))
    vega ← lift (needed (Maps.get (lit "to-x25519") f))
    admin ← load_keys dir
    blob ← lift (
        or_throw
          (make_canary platform admin (keyword_of f) (text_of f) vega fresh.random fresh.entropy
            fresh.now)
          unexpected)
    delivered (Maps.get (lit "send") f) admin_token blob

  -- The end of a run: what `friend` throws is caught and printed, with status 1.
  abbrev pub ended : (catches : Bool) → Result Fault (Unit {0}) × Shell S → Exit × Shell S
  ended catches (ok u, s) = (status 0, s)
  ended catches (err (exits code), s) = (status code, s)
  ended true (err (said text), s) = (status 1, s)
  ended true (err unexpected, s) = (status 1, s)
  ended false (err (said text), s) = (uncaught, s)
  ended false (err unexpected, s) = (uncaught, s)

  abbrev pub key_dir : List Str → Str
  key_dir [] = env.join (get_or env.data_dir (lit "/var/lib/islandd")) (lit "identity")
  key_dir (dir ∷ rest) = dir

  abbrev pub tail : List Str → List Str
  tail [] = []
  tail (a ∷ as') = as'

  unfoldable pub run_cli : (argv : List Str) → Shell S → Exit × Shell S
  run_cli [] s = ended true (usage env net s)
  run_cli (group ∷ rest) s =
      if group == lit "keygen"
      then ended false (keygen (key_dir rest) s)
      else if group == lit "canary"
      then ended false (mint_canary rest s)
      else if group == lit "friend"
      then ended true (friend_command env net (head? rest) (tail rest) s)
      else ended true (usage env net s)
