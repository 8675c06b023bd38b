-- ===== src/Node/State.antt =====
-- main.ts: the state of a running node, and handlers as functions on it. A handler that throws
-- keeps what it changed before. Handlers run to their end one after another; only the waits inside
-- of the gate (core/gate.ts) are steps of their own.
use vpn_pi.Common.{
  ℕ, Bool, true, false, Option, some, List, [], ◌∷◌, ◌++◌, Str, lit, str_eq, ◌==◌, length,
  if◌then◌else◌, ltb, ◌||◌,
}
use vpn_pi.Errors.{Thrown, other_error}
use vpn_pi.Errors.Result.{Result, ok, err}
use vpn_pi.Json.{Json, decimal}
use vpn_pi.Platform.{Bytes, Platform}
use vpn_pi.Identity.{Identity}
use vpn_pi.Friends.Book.{FriendBook, BookData, to_json}
use vpn_pi.Messages.{MessageBook}
use vpn_pi.Gate.{Gate}
use vpn_pi.Gate
use vpn_pi.Share.{Share, FileContent}
use vpn_pi.Registry.{Reply}
use vpn_pi.Daemon.{Ctx, Request}
use vpn_pi.Sysinfo.Journal.{digits, literal, ◌then_read◌}

-- What of the runtime the routes use beside `Platform`: `createHash("sha256")`, `JSON.parse`,
-- `decodeURIComponent` (`none` where they throw), `toUpperCase`, TextEncoder and TextDecoder,
-- `Number(…)` of a text, `none` where it is not finite, and whether `a.localeCompare(b) <= 0`.
pub record Runtime : Type 0 where
  pub platform : Platform
  pub sha256 : Str → List ℕ
  pub parse_text : Str → Option Json
  pub decode_uri : Str → Option Str
  pub to_upper : Str → Str
  pub utf8_encode : Str → Bytes
  pub utf8_decode : Bytes → Str
  pub to_whole : Str → Option ℕ
  pub locale_leb : Str → Str → Bool

pub record AdminApp : Type 0 where
  pub identity : Identity
  pub target : Str
  pub target_x25519 : Str
  pub target_label : Str
  pub target_token : Str

-- The settings that `boot` reads. An empty text is a setting that is not there.
pub record Config : Type 0 where
  pub wg_iface : Str
  pub peer_port : ℕ
  pub gate_status_url : Str
  pub gate_status_label : Str
  pub registry_url : Str
  pub canary_keyword : Str
  pub canary_freshness_s : ℕ
  pub admin_keys : Str → Option Bytes
  pub admin_app : Option AdminApp
  pub mock_admin : Option Identity

-- The three files that `persist` writes.
pub record Saved : Type 0 where
  pub books : BookData
  pub messages : MessageBook
  pub nonces : List (Str × ℕ)

pub record Delivery : Type 0 where
  pub url : Str
  pub body : Json

-- `Ctx` of main.ts: the guards' part, the message book, the gate, the share, the marker of the
-- first run, the visitors who wait for its removal, the disk, how many of the files of a `persist`
-- can be written, and what was sent to peers. The share is the one in memory.
pub record Node : Type 0 where
  pub ctx : Ctx
  pub messages : MessageBook
  pub gate : Gate
  pub share : Share
  pub first_run : Bool
  pub revealing : ℕ
  pub disk : Saved
  pub writes : ℕ
  pub sent : List Delivery

-- What one request meets outside: the limiter's readings of the clock and the time, fresh
-- randomness, whether a peer answers with a success, the registry's answer to a code, the answers
-- of the gate node (its status, and to a forwarded request a body that can be read or not with its
-- status), and the outputs of the commands of Home.
pub record World : Type 0 where
  pub now : ℕ
  pub pushed : ℕ
  pub random : Bytes
  pub entropy : ℕ
  pub uuid : Str
  pub delivers : Bool
  pub registry : Str → Reply
  pub gate_status : Option Json
  pub forwarded : Option (Option Json × ℕ)
  pub wg_output : Option Str
  pub fail2ban_output : Option Str
  pub daemon_output : Option Str

-- The file of an upload's form.
pub record Upload : Type 0 where
  pub name : Str
  pub content : Bytes
  pub content_type : Str

-- A request; a content-length that is absent or no number is 0.
pub record Http : Type 0 where
  pub http_method : Str
  pub path : Str
  pub content_length : ℕ
  pub text : Str
  pub peer_query : Option Str
  pub upload : Option Upload
  pub guard : Request

-- A response; `waits` is a request that opens the gate, answered when the gate is
-- done, or one that reveals the token, answered when the marker's removal has ended.
pub data Answer : Type 0 where
  json : (status : ℕ) → Json → Answer
  plain : (status : ℕ) → Str → Answer
  failed : (status : ℕ) → Answer
  download : FileContent → Answer
  no_content : Answer
  web_page : Answer
  waits : Answer

abbrev pub Act {ℓ} : Type ℓ → Type ℓ
Act A = Node → Result Thrown A × Node

module _ {ℓ κ} {A : Type ℓ} {B : Type κ} where
  abbrev pub proceed : Result Thrown A × Node → (A → Act B) → Result Thrown B × Node
  proceed (ok a, n) next = next a n
  proceed (err e, n) next = (err e, n)

  infixl 5 ◌>>=◌
  unfoldable pub ◌>>=◌ : Act A → (A → Act B) → Act B
  (first >>= next) n = proceed (first n) next

infixl 5 ◌>>◌
unfoldable pub ◌>>◌ {κ} : {B : Type κ} → Act (Unit {0}) → Act B → Act B
(first >> second) n = proceed (first n) (λ u. second)

module _ {ℓ} {A : Type ℓ} where
  unfoldable pub give : A → Act A
  give a n = (ok a, n)

  unfoldable pub throw : Thrown → Act A
  throw e n = (err e, n)

  -- A part that changes nothing.
  unfoldable pub pure : Result Thrown A → Act A
  pure r n = (r, n)

  unfoldable pub reading : (Node → A) → Act A
  reading f n = (ok (f n), n)

  abbrev pub put_book : Node → Result Thrown (A × FriendBook) → Result Thrown A × Node
  put_book n (ok (a, b)) = (ok a, record n { ctx = record n.ctx { book = b } })
  put_book n (err e) = (err e, n)

  -- An operation of the friend book.
  unfoldable pub on_book : (FriendBook → Result Thrown (A × FriendBook)) → Act A
  on_book operation n = put_book n (operation n.ctx.book)

  abbrev put_ctx : Node → Result Thrown A × Ctx → Result Thrown A × Node
  put_ctx n (r, c) = (r, record n { ctx = c })

  -- A guard, which writes the limiter.
  unfoldable pub on_ctx : (Ctx → Result Thrown A × Ctx) → Act A
  on_ctx guard n = put_ctx n (guard n.ctx)

-- An operation of the message book, which may change it and throw.
unfoldable pub on_messages : (MessageBook → Result Thrown (Unit {0}) × MessageBook) → Act (Unit {0})
on_messages operation n = let (r, m) = operation n.messages in (r, record n { messages = m })

unfoldable pub on_gate : (Gate → Gate) → Act (Unit {0})
on_gate operation n = (ok tt, record n { gate = operation n.gate })

abbrev pub saved : Node → Saved
saved n = record { books = to_json n.ctx.book; messages = n.messages; nonces = Gate.to_json n.gate }

-- The three files are written in their order, up to the one that cannot be written.
abbrev pub written : (writes : ℕ) → Node → Saved
written writes n = record {
  books = if ltb 0 writes then (saved n).books else n.disk.books;
  messages = if ltb 1 writes then (saved n).messages else n.disk.messages;
  nonces = if ltb 2 writes then (saved n).nonces else n.disk.nonces;
}

abbrev wrote_all : Bool → Result Thrown (Unit {0})
wrote_all true = ok tt
wrote_all false = err other_error

-- `persist`, which does nothing with --mock. It throws if a file cannot be written.
unfoldable pub persist : Act (Unit {0})
persist n = (
  wrote_all (n.ctx.credentials.mock || ltb 2 n.writes),
  if n.ctx.credentials.mock then n else record n { disk = written n.writes n },
)

-- `^\d{1,3}(?:\.\d{1,3}){3}:\d+$`.
unfoldable pub has_port : Str → Bool
has_port s =
    elim (digits 1 3 s
      then_read literal (lit ".")
      then_read digits 1 3
      then_read literal (lit ".")
      then_read digits 1 3
      then_read literal (lit ".")
      then_read digits 1 3
      then_read literal (lit ":")
      then_read (λ t. digits 1 (length t) t)) [ some [] ↦ true | _ ↦ false ]

unfoldable pub peer_url : (wg0 : Str) → (default_port : ℕ) → (path : Str) → Str
unfolding has_port
peer_url wg0 default_port path =
    lit "http://"
    ++ ((if has_port wg0 then wg0 else wg0 ++ (lit ":" ++ decimal default_port)) ++ path)

-- `deliver`; true if the peer answered with a success.
unfoldable pub deliver : Config → World → (wg0 path : Str) → Json → Act Bool
unfolding peer_url
deliver cfg w wg0 path body n = (
  ok w.delivers,
  record n { sent = n.sent ++ record { url = peer_url wg0 cfg.peer_port path; body = body } ∷ [] },
)

-- `wg0 ? await deliver(…) : false`.
unfoldable pub deliver_if_any : Config → World → (wg0 path : Str) → Json → Act Bool
unfolding deliver
deliver_if_any cfg w wg0 path body = if wg0 == [] then give false else deliver cfg w wg0 path body
