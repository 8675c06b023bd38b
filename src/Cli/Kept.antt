-- ===== src/Cli/Kept.antt =====
-- The files over the commands of cli.ts.
use vpn_pi.Common.{
  ◌≡◌, refl, Bool, true, false, Option, none, some, List, [], ◌∷◌, Str, lit, str_eq, str_beq_iff,
  ◌==◌, Bool-cases, inl, inr, ◌⊎◌, ◌∙◌, ap, All, if◌then◌else◌,
}
use vpn_pi.Common.Maps
use vpn_pi.Common.Maps.{Map}
use vpn_pi.Errors.Result.{Result, ok, err}
use vpn_pi.Json.{Json, Items, nil, cons}
use vpn_pi.Identity.{KeyFiles}
use vpn_pi.Cli.Shell.{
  Env, Fresh, Net, Call, Line, Shell, Fault, said, unexpected, exits, Cmd, continue, ◌>>=◌, ◌>>◌,
  lift, print, fetch,
}
use vpn_pi.Cli.Friend.{
  req, usage, first_argument, invite_command, accept_command, confirm_command, print_friends,
  print_pending, pending_lines, list_command, friend_command,
}
use vpn_pi.Cli.Keys.{
  load_keys, save_keys, write_keys, key_path, key_dir, keygen, print_verdict, send_canary,
  delivered, mint_canary, Exit, ended, run_cli,
}

module _ {S : Type 0} where
  -- The files are the same.
  abbrev pub IsKept : Shell S → Shell S → Type 0
  IsKept s s' = s'.files ≡ s.files

  abbrev Keeps {ℓ} : {A : Type ℓ} → Cmd S A → Type 0
  Keeps f = (s : Shell S) → IsKept s (f s).1

  continue-Keeps {ℓ κ} :
      {A : Type ℓ} {B : Type κ} (s : Shell S) (r : Result Fault A × Shell S) (next : A → Cmd S B)
      → IsKept s r.1
      → ((a : A) → Keeps (next a))
      → IsKept s (continue r next).1
  continue-Keeps s (ok a, s') next h k = k a s' ∙ h
  continue-Keeps s (err e, s') next h k = h

  bind-Keeps {ℓ κ} :
      {A : Type ℓ} {B : Type κ} (f : Cmd S A) (next : A → Cmd S B)
      → Keeps f
      → ((a : A) → Keeps (next a))
      → Keeps (f >>= next)
  unfolding ◌>>=◌
  bind-Keeps f next h k s = continue-Keeps s (f s) next (h s) k

  seq-Keeps {κ} :
      {B : Type κ} (f : Cmd S (Unit {0})) (next : Cmd S B)
      → Keeps f
      → Keeps next
      → Keeps (f >> next)
  unfolding ◌>>◌
  seq-Keeps f next h k s = continue-Keeps s (f s) (λ u. next) (h s) (λ u. k)

  lift-Keeps {ℓ} : {A : Type ℓ} (r : Result Fault A) → Keeps (lift r)
  unfolding lift
  lift-Keeps r s = refl

  print-Keeps : (l : Line) → Keeps (print l)
  unfolding print
  print-Keeps l s = refl

  fetch-Keeps : (net : Net S) (call : Call) → Keeps (fetch net call)
  unfolding fetch
  fetch-Keeps net call s = refl

  if-Keeps {ℓ} :
      {A : Type ℓ} (b : Bool) (f g : Cmd S A) → Keeps f → Keeps g → Keeps (if b then f else g)
  if-Keeps true f g h k = h
  if-Keeps false f g h k = k

  ruleset keeps = (bind-Keeps, seq-Keeps, lift-Keeps, print-Keeps, fetch-Keeps)

  module _ (env : Env) (net : Net S) where
    req-Keeps : (path : Str) (json : Option Json) → Keeps (req env net path json)
    unfolding req
    req-Keeps path json = search keeps

    usage-Keeps : (A : Type 0) → Keeps {A = A} (usage env net)
    unfolding usage
    usage-Keeps A = search keeps

    invite_command-Keeps : (rest : List Str) → Keeps (invite_command env net rest)
    unfolding invite_command
    invite_command-Keeps rest = search (keeps, req-Keeps)

    first_argument-Keeps : (rest : List Str) → Keeps (first_argument env net rest)
    unfolding first_argument
    first_argument-Keeps [] = usage-Keeps Str
    first_argument-Keeps (a ∷ rest) =
        if-Keeps (a == []) (usage env net) (lift (ok a)) (usage-Keeps Str) (lift-Keeps (ok a))

    accept_command-Keeps : (rest : List Str) → Keeps (accept_command env net rest)
    unfolding accept_command
    accept_command-Keeps rest = bind-Keeps _ _ (first_argument-Keeps rest) (λ invite.
        bind-Keeps _ _ (req-Keeps _ _) (λ received.
          bind-Keeps _ _ (lift-Keeps _) (λ request.
            bind-Keeps _ _ (lift-Keeps _) (λ giver. search (keeps, req-Keeps) depth 16))))

    confirm_command-Keeps : (rest : List Str) → Keeps (confirm_command env net rest)
    unfolding confirm_command
    confirm_command-Keeps rest = search (keeps, req-Keeps, first_argument-Keeps) depth 16

    print_friends-Keeps : (fs : Items) → Keeps (print_friends env net fs)
    unfolding print_friends
    print_friends-Keeps nil = search keeps
    print_friends-Keeps (cons f fs) = search (keeps, print_friends-Keeps fs) depth 16

    print_pending-Keeps : (fs : Items) → Keeps (print_pending env net fs)
    unfolding print_pending
    print_pending-Keeps nil = search keeps
    print_pending-Keeps (cons f fs) = search (keeps, print_pending-Keeps fs)

    pending_lines-Keeps : (fs : Items) → Keeps (pending_lines env net fs)
    unfolding pending_lines
    pending_lines-Keeps fs = search (keeps, if-Keeps, print_pending-Keeps)

    list_command-Keeps : Keeps (list_command env net)
    unfolding list_command
    list_command-Keeps =
        search (keeps, req-Keeps, print_friends-Keeps, pending_lines-Keeps) depth 16

    friend_command-Keeps :
        (cmd : Option Str) (rest : List Str) → Keeps (friend_command env net cmd rest)
    unfolding friend_command
    friend_command-Keeps none rest = search usage-Keeps
    friend_command-Keeps (some cmd) rest =
        search
          (
            if-Keeps, invite_command-Keeps, accept_command-Keeps, confirm_command-Keeps,
            list_command-Keeps, usage-Keeps,
          )
          depth 16

  module _ (env : Env) (fresh : Fresh) (net : Net S) where
    load_keys-Keeps : (dir : Str) → Keeps (load_keys env fresh net dir)
    unfolding load_keys
    load_keys-Keeps dir s = refl

    print_verdict-Keeps : (j : Json) → Keeps (print_verdict env fresh net j)
    unfolding print_verdict
    print_verdict-Keeps j = search (keeps, if-Keeps)

    send_canary-Keeps : (send token blob : Str) → Keeps (send_canary env fresh net send token blob)
    unfolding send_canary
    send_canary-Keeps send token blob = search (keeps, print_verdict-Keeps)

    delivered-Keeps :
        (send : Option Str) (token blob : Str) → Keeps (delivered env fresh net send token blob)
    unfolding delivered
    delivered-Keeps none token blob = print-Keeps _
    delivered-Keeps (some send) token blob = search (if-Keeps, print-Keeps, send_canary-Keeps)

    mint_canary-Keeps : (argv : List Str) → Keeps (mint_canary env fresh net argv)
    unfolding mint_canary
    mint_canary-Keeps argv = bind-Keeps _ _ (lift-Keeps _) (λ dir.
        bind-Keeps _ _ (lift-Keeps _) (λ vega.
          bind-Keeps _ _ (load_keys-Keeps dir)
            (λ admin. bind-Keeps _ _ (lift-Keeps _) (λ blob. delivered-Keeps _ _ blob))))

    abbrev pub key_paths : (dir : Str) → List Str
    key_paths dir =
        key_path env fresh net dir
        ∷ env.join dir (lit "ed25519.pub")
        ∷ env.join dir (lit "x25519.key")
        ∷ env.join dir (lit "x25519.pub")
        ∷ []

    -- A directory gets new keys: it had no ed25519.key, and of all files only its four change.
    abbrev pub IsGiven : (dir : Str) → Shell S → Shell S → Type 0
    IsGiven dir s s' =
        (Maps.has (key_path env fresh net dir) s.files ≡ false)
        × ((path : Str)
            → All (λ p. (p == path) ≡ false) (key_paths dir)
            → Maps.get path s'.files ≡ Maps.get path s.files)

    write_keys-other :
        (dir path : Str) (k : KeyFiles) (m : Map Str Str)
        → All (λ p. (p == path) ≡ false) (key_paths dir)
        → Maps.get path (write_keys env fresh net dir k m) ≡ Maps.get path m
    unfolding write_keys
    write_keys-other dir path k m (b, (c, (d, (e, last)))) =
        rw (Maps.get-set, e, Maps.get-set, d, Maps.get-set, c, Maps.get-set, b) refl

    keygen-cases :
        (dir : Str) (s : Shell S)
        → IsKept s (keygen env fresh net dir s).1 ⊎ IsGiven dir s (keygen env fresh net dir s).1
    unfolding keygen save_keys print ◌>>◌
    keygen-cases dir s = elim (Bool-cases (Maps.has (key_path env fresh net dir) s.files)) [
      | inl taken ↦ inl (rw taken refl)
      | inr absent ↦ inr (rw absent (refl, λ path other. write_keys-other dir path _ s.files other))
    ]

    ended-files :
        (catches : Bool) (r : Result Fault (Unit {0}) × Shell S)
        → (ended env fresh net catches r).1.files ≡ r.1.files
    ended-files catches (ok u, s) = refl
    ended-files catches (err (exits code), s) = refl
    ended-files true (err (said text), s) = refl
    ended-files true (err unexpected, s) = refl
    ended-files false (err (said text), s) = refl
    ended-files false (err unexpected, s) = refl

    either-IsKept :
        (b : Bool) (s : Shell S) (x y : Exit × Shell S)
        → IsKept s x.1
        → IsKept s y.1
        → IsKept s (if b then x else y).1
    either-IsKept true s x y h k = h
    either-IsKept false s x y h k = k

    -- No command of the client, whatever its arguments, the network's answers and its end, changes,
    -- adds or removes a file, but `keygen` in a directory that holds no ed25519.key. That one
    -- changes no file but the four key files of the directory.
    pub run_cli-IsKept :
        (argv : List Str) (s : Shell S)
        → IsKept s (run_cli env fresh net argv s).1
          ⊎ ((rest : List Str) × (argv ≡ lit "keygen" ∷ rest)
              × IsGiven (key_dir env fresh net rest) s (run_cli env fresh net argv s).1)
    unfolding run_cli
    run_cli-IsKept [] s = inl (ended-files true _ ∙ usage-Keeps env net _ s)
    run_cli-IsKept (group ∷ rest) s = elim (Bool-cases (group == lit "keygen")) [
      | inl named ↦ elim (keygen-cases (key_dir env fresh net rest) s) [
        | inl kept ↦ inl (rw named (ended-files false _ ∙ kept))
        | inr (absent, others) ↦ inr (
          rest,
          ap (λ x. x ∷ rest) ((str_beq_iff group (lit "keygen")).0 named),
          (
            absent,
            λ path other. rw named (ap (Maps.get path) (ended-files false _) ∙ others path other),
          ),
        )
      ]
      | inr other ↦ inl (
          rw other (
            either-IsKept (group == lit "canary") s _ _
              (ended-files false _ ∙ mint_canary-Keeps rest s)
              (either-IsKept (group == lit "friend") s _ _
                (ended-files true _ ∙ friend_command-Keeps env net _ _ s)
                (ended-files true _ ∙ usage-Keeps env net _ s))))
    ]
