-- ===== src/Cli/Friend.antt =====
-- cli.ts: `req`, and the commands of `islandd friend`.
use vpn_pi.Common.{
  ℕ, ◌+◌, Option, none, some, List, [], ◌∷◌, ◌++◌, Str, lit, str_eq, nat_eq, ◌==◌, take, get_or,
  if◌then◌else◌,
}
use vpn_pi.Errors.Result.{Result, ok, err, or_throw}
use vpn_pi.Json.{Json, null, str, arr, Items, nil, cons, decimal, as_text, text_or_undefined}
use vpn_pi.Node.Json.{object, number}
use vpn_pi.Cli.Shell.{
  Env, Net, words, value, usage_text, Fault, said, unexpected, exits, Cmd, ◌>>=◌, ◌>>◌, lift, print,
  fetch, header, is_success, error_text, child,
}

abbrev json_of_answer : Option (ℕ × Option Json) → Result Fault Json
json_of_answer none = err unexpected
json_of_answer (some (status, body)) =
    let j = get_or body null in if is_success status then ok j else err (said (error_text status j))

-- `rest[0]`, which must be there and not empty.
abbrev pub head? : List Str → Option Str
head? [] = none
head? (a ∷ as') = some a

-- `rest[rest.indexOf("--ttl") + 1]`, if "--ttl" is there.
unfoldable pub ttl_argument : List Str → Option (Option Str)
ttl_argument [] = none
ttl_argument (a ∷ as') =
    let later = ttl_argument as' in if a == lit "--ttl" then some (head? as') else later

-- `JSON.stringify({ giver: v })` leaves out a field that is undefined.
abbrev giver_json : Option Json → Json
giver_json none = object []
giver_json (some v) = object ((lit "giver", v) ∷ [])

abbrev list_items : Option Json → Result Fault Items
list_items (some (arr xs)) = ok xs
list_items _ = err unexpected

abbrev list_of : Str → Json → Result Fault Items
list_of k d = elim (child k (some d)) [ ok v ↦ list_items v | err e ↦ err e ]

-- `xs.length`.
unfoldable pub count : Items → ℕ
count nil = 0
count (cons x xs) = 1 + count xs

module _ (env : Env) {S : Type 0} (net : Net S) where
  unfoldable pub req : (path : Str) → Option Json → Cmd S Json
  req path json = do
    answer ← fetch net (record {
      url = env.addr ++ path;
      admin_token = header env.admin_token;
      op_token = header env.op_token;
      body = json;
    })
    lift (json_of_answer answer)

  unfoldable pub usage : {A : Type 0} → Cmd S A
  usage = do print usage_text; lift (err (exits 2))

  -- `rest[0]`, which must be there and not empty.
  unfoldable pub first_argument : List Str → Cmd S Str
  first_argument [] = usage
  first_argument (a ∷ as') = if a == [] then usage else lift (ok a)

  -- `Number(undefined)` is NaN, which is printed as null.
  abbrev ttl_json : Option (Option Str) → Json
  ttl_json none = number 86400
  ttl_json (some none) = null
  ttl_json (some (some text)) = env.number_json text

  unfoldable pub invite_command : (rest : List Str) → Cmd S (Unit {0})
  invite_command rest = do
    j ←
        req (lit "/api/friends/token")
          (some (object ((lit "ttlSeconds", ttl_json (ttl_argument rest)) ∷ [])))
    invite ← lift (child (lit "invite") (some j))
    print (words (lit "Send this invite to your friend:\n"))
    print (value invite)

  unfoldable pub accept_command : (rest : List Str) → Cmd S (Unit {0})
  accept_command rest = do
    invite ← first_argument rest
    received ← req (lit "/api/friends/receive") (some (object ((lit "invite", str invite) ∷ [])))
    request ← lift (child (lit "request") (some received))
    giver ← lift (child (lit "ed25519") request)
    accepted ← req (lit "/api/friends/accept") (some (giver_json giver))
    reply ← lift (child (lit "reply") (some accepted))
    label ← lift (child (lit "label") request)
    print (
        words (
          lit "Connected to "
          ++ (text_or_undefined label ++ lit ". Send this reply back to them:\n")))
    print (value reply)

  unfoldable pub confirm_command : (rest : List Str) → Cmd S (Unit {0})
  confirm_command rest = do
    reply ← first_argument rest
    confirmed ← req (lit "/api/friends/confirm") (some (object ((lit "reply", str reply) ∷ [])))
    friend ← lift (child (lit "friend") (some confirmed))
    peer ← lift (child (lit "peer") friend)
    label ← lift (child (lit "label") peer)
    print (words (lit "Friendship complete: " ++ text_or_undefined label))

  -- The friends one by one: a label, and the first 20 characters of the key, which must be a text.
  unfoldable pub print_friends : Items → Cmd S (Unit {0})
  print_friends nil = lift (ok tt)
  print_friends (cons f fs) = do
    peer ← lift (child (lit "peer") (some f))
    label ← lift (child (lit "label") peer)
    key ← lift (child (lit "ed25519") peer)
    text ← lift (or_throw (as_text key) unexpected)
    print (words (lit "  " ++ (text_or_undefined label ++ (lit "  " ++ (take 20 text ++ lit "…")))))
    print_friends fs

  unfoldable pub print_pending : Items → Cmd S (Unit {0})
  print_pending nil = lift (ok tt)
  print_pending (cons f fs) = do
    peer ← lift (child (lit "peer") (some f))
    label ← lift (child (lit "label") peer)
    print (
        words (
          lit "  "
          ++ (text_or_undefined label ++ lit "  (run: islandd friend list to accept via UI)")))
    print_pending fs

  unfoldable pub pending_lines : Items → Cmd S (Unit {0})
  unfolding count print_pending
  pending_lines pending = if count pending == 0 then lift (ok tt) else (do
    print (words (lit "Pending (" ++ (decimal (count pending) ++ lit "):")))
    print_pending pending)

  -- The daemon answers with two lists (friends_json of Node.Json).
  unfoldable pub list_command : Cmd S (Unit {0})
  unfolding count print_friends
  list_command = do
    d ← req (lit "/api/friends") none
    friends ← lift (list_of (lit "friends") d)
    print (words (lit "Friends (" ++ (decimal (count friends) ++ lit "):")))
    print_friends friends
    pending ← lift (list_of (lit "pending") d)
    pending_lines pending

  unfoldable pub friend_command : Option Str → (rest : List Str) → Cmd S (Unit {0})
  friend_command none rest = usage
  friend_command (some cmd) rest =
      if cmd == lit "invite"
      then invite_command rest
      else if cmd == lit "accept"
      then accept_command rest
      else if cmd == lit "confirm"
      then confirm_command rest
      else if cmd == lit "list"
      then list_command
      else usage
