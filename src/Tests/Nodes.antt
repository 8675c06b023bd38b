-- ===== src/Tests/Nodes.antt =====
-- Envelopes, texts, messages and the limiter at concrete inputs.
use vpn_pi.Common.{
  ℕ, ◌≤◌, ◌<◌, ◌≡◌, ◌↔◌, ◌⊎◌, refl, Bool, true, false, Option, none, some, List, [], ◌∷◌, ◌++◌, Str,
  lit, str_eq, str_beq, ◌==◌, contains, get_or, arith, length, drop, leb, filterb, if◌then◌else◌,
  ◌+◌, ◌-◌,
}
use vpn_pi.Common.Maps
use vpn_pi.Errors.Result.{ok}
use vpn_pi.Json.{Json, obj, str, field, end}
use vpn_pi.Platform.{Bytes}
use vpn_pi.Canonical.{canonicalize, encode_string}
use vpn_pi.Envelope.{sealed_contents, open_verify}
use vpn_pi.Envelope.Authenticity.{IsAuthentic, open_verify-IsAuthentic}
use vpn_pi.Canary.{Canary, verify_canary}
use vpn_pi.Canary.Replay.{IsAccepted, verify_canary-IsAccepted}
use vpn_pi.RateLimit.{locked, in_window}
use vpn_pi.RateLimit.History.{Call, asks, fails, resets, failures, run, locked-run}
use vpn_pi.Auth.{Credentials}
use vpn_pi.Messages.{StoredMessage, MessageBook, incoming, mark_seen}
use vpn_pi.Messages.Replay.{Mark, mark_all, mark_seen_twice}
use vpn_pi.Tests.Toy.{toy, program}
use vpn_pi.Tests.Books.{node}

abbrev payload : Json
payload = obj (
    field (lit "typ") (str (lit "canary")) (
      field (lit "node") (str (lit "admin")) (
        field (lit "keyword") (str (lit "open")) (
          field (lit "text") (str (lit "open please")) (
            field (lit "nonce") (str (lit "n1")) (field (lit "issued") (str (100000 ∷ [])) end))))))

-- The key of the one administrator.
abbrev admin_key : Str → Option Bytes
admin_key name = if name == lit "admin" then some (3 ∷ []) else none

abbrev sealed : Bytes
sealed =
    7
    ∷ 2
    ∷ program (sealed_contents payload (65 ∷ 3 ∷ (get_or (canonicalize payload) [] ++ 65 ∷ [])))

payload-opened : open_verify toy sealed (7 ∷ 2 ∷ []) (7 ∷ 2 ∷ []) admin_key ≡ ok payload
unfolding open_verify vpn_pi.Common.starts_with vpn_pi.Tests.Toy.execute program
    vpn_pi.Tests.Toy.units canonicalize encode_string vpn_pi.Json.property str_beq
    vpn_pi.Json.as_text vpn_pi.Tests.Toy.drop_last
payload-opened = refl

open_verify-IsAuthentic_example : IsAuthentic toy admin_key payload
open_verify-IsAuthentic_example =
    open_verify-IsAuthentic toy admin_key sealed (7 ∷ 2 ∷ []) (7 ∷ 2 ∷ []) payload payload-opened

abbrev blob : Str
blob = 65 ∷ (sealed ++ 65 ∷ [])

abbrev canary : Canary
canary = record {
  admin = lit "admin";
  keyword = lit "open";
  text = lit "open please";
  nonce = lit "n1";
  issued = 100000 ∷ [];
}

canary-verified : verify_canary toy (node 7) blob admin_key (lit "open") 300 200000 ≡ ok canary
unfolding verify_canary vpn_pi.Codec.from_b64 vpn_pi.Common.trim program vpn_pi.Tests.Toy.units
    canonicalize encode_string open_verify vpn_pi.Common.starts_with vpn_pi.Tests.Toy.drop_last
    vpn_pi.Tests.Toy.execute vpn_pi.Json.property str_beq vpn_pi.Json.as_text
    vpn_pi.Canary.check_payload vpn_pi.Canary.text_or_empty vpn_pi.Json.text_of
    vpn_pi.Canary.first_token vpn_pi.Canonical.escape vpn_pi.Canonical.escape_all
    vpn_pi.Canonical.hex4 vpn_pi.Canonical.str_leb vpn_pi.Common.is_space vpn_pi.Common.trim_start
    vpn_pi.Json.decimal vpn_pi.Json.member vpn_pi.Json.number_text vpn_pi.Json.text_or_undefined
canary-verified = refl

verify_canary-IsAccepted_example : IsAccepted toy admin_key (lit "open") 300 200000 canary
verify_canary-IsAccepted_example =
    verify_canary-IsAccepted toy (node 7) blob admin_key (lit "open") 300 200000 canary
      canary-verified

abbrev calls : List Call
calls =
    fails (lit "a") 10 10
    ∷ fails (lit "b") 11 11
    ∷ fails (lit "a") 12 13
    ∷ asks (lit "b") 14
    ∷ resets (lit "b")
    ∷ []

locked-run_example :
    (locked (lit "a") 20 (run (record { max = 2; window_ms = 100; hits = [] }) calls)).0
    ≡ leb 2 (length (filterb (in_window 100 20) (failures (lit "a") [] calls)))
locked-run_example = locked-run (lit "a") 2 100 20 calls (omega arith)

abbrev configured : Credentials
configured = record { mock = false; op_token = lit "op"; admin_token = [] }

-- A digest that keeps the text.
abbrev digest : Str → List ℕ
digest s = s

abbrev hello : StoredMessage
hello = record {
  message = record {
    id = none;
    sender = lit "bob";
    to = lit "alice";
    body = lit "hi";
    ts = lit "t";
  };
  dir = incoming;
}

abbrev messages : MessageBook
messages = record { logs = (lit "bob", hello ∷ []) ∷ []; seen = (lit "m0", 5000000) ∷ [] }

abbrev marks : List Mark
marks =
    record { other = lit "m2"; ts = 5000100; now = 5000200 }
    ∷ record { other = lit "m0"; ts = 1; now = 5000300 }
    ∷ []

mark_seen_twice_example :
    (mark_seen
      (lit "m1")
      7
      6100000
      (mark_all marks (mark_seen (lit "m1") 5000000 5000000 messages).1)).0
    ≡ false
unfolding Maps.get str_beq
mark_seen_twice_example =
    mark_seen_twice (lit "m1") 5000000 5000000 messages marks 7 6100000 refl (omega arith)
      (omega arith)
