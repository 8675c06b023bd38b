-- ===== src/Tests/Sealed.antt =====
-- A canary and a message that are sealed and opened, at concrete bytes.
use vpn_pi.Common.{ℕ, ◌≡◌, ◌≢◌, refl, none, some, [], ◌∷◌, Str, lit, get_or, arith}
use vpn_pi.Errors.{other_error}
use vpn_pi.Errors.Result.{ok, err}
use vpn_pi.Json.{Json, null, str, obj, field, end}
use vpn_pi.Canonical.{canonicalize}
use vpn_pi.Platform.{Bytes, Platform}
use vpn_pi.Codec.{to_b64}
use vpn_pi.Envelope.{sealed_contents}
use vpn_pi.Envelope.RoundTrip.{IsRead}
use vpn_pi.Friends.Wire.{peer_pub_of}
use vpn_pi.Canary.{canary_payload, make_canary, verify_canary, first_token}
use vpn_pi.Canary.RoundTrip.{sorted_payload, verify_canary-make_canary}
use vpn_pi.Messages.{
  MessageBook, message_payload, seal_message, open_message, guard_message, read_message, mark_seen,
}
use vpn_pi.Messages.RoundTrip.{sorted_message, open_message-seal_message}
use vpn_pi.Tests.Toy.{toy, reading, reading-IsLawful, IsRead-one}
use vpn_pi.Tests.Books.{node}

-- The text that is signed, and the contents that are sealed, over the toy's signature.
abbrev signed_of : Json → Str
signed_of payload = get_or (canonicalize payload) []

abbrev contents_of : Json → Json → (secret : Bytes) → Json
contents_of payload parsed secret =
    sealed_contents parsed (toy.to_base64 (toy.sign (signed_of payload) secret))

abbrev inner_of : Json → (secret : Bytes) → Str
inner_of payload secret = get_or (canonicalize (contents_of payload payload secret)) []

abbrev pub canary_json : Json
canary_json =
    canary_payload toy (node 7) (lit "GREEN18") (lit "GREEN18 please") (to_b64 toy (5 ∷ [])) 1000

abbrev pub canary_read : Json
canary_read =
    sorted_payload toy (node 7) (lit "GREEN18") (lit "GREEN18 please") (to_b64 toy (5 ∷ [])) 1000

abbrev pub canary_platform : Platform
canary_platform =
    reading (inner_of canary_json (7 ∷ 1 ∷ [])) (contents_of canary_json canary_read (7 ∷ 1 ∷ []))

pub canary-IsRead : IsRead canary_platform canary_json canary_read (7 ∷ 1 ∷ [])
unfolding canonicalize canary_payload to_b64 vpn_pi.Tests.Toy.execute vpn_pi.Canonical.encode_string
    vpn_pi.Common.str_beq
canary-IsRead =
    IsRead-one canary_platform canary_json canary_read (7 ∷ 1 ∷ []) (signed_of canary_json)
      (inner_of canary_json (7 ∷ 1 ∷ [])) refl refl refl

verify_canary-make_canary_example :
    (blob : Str) × (make_canary canary_platform
        (node 7)
        (lit "GREEN18")
        (lit "GREEN18 please")
        (to_b64 canary_platform (9 ∷ 2 ∷ []))
        (5 ∷ [])
        3
        1000
      ≡ some blob)
    × (verify_canary canary_platform (node 9) blob (λ s. some (7 ∷ 1 ∷ [])) (lit "GREEN18") 300 2000
        ≡ ok (record {
          admin = to_b64 canary_platform (7 ∷ 1 ∷ []);
          keyword = lit "GREEN18";
          text = lit "GREEN18 please";
          nonce = to_b64 canary_platform (5 ∷ []);
          issued = 1000 ∷ [];
        }))
unfolding vpn_pi.Tests.Toy.execute canary_payload vpn_pi.Tests.Toy.program to_b64 first_token
    vpn_pi.Common.trim
verify_canary-make_canary_example =
    verify_canary-make_canary canary_platform (reading-IsLawful _ _) (node 7) (node 9)
      (lit "GREEN18") (lit "GREEN18 please") (5 ∷ []) 3 1000 300 2000 (λ s. some (7 ∷ 1 ∷ []))
      (record { public = refl; secret = refl; box = refl })
      (record { public = refl; secret = refl; box = refl }) canary-IsRead refl refl (omega arith)

abbrev message_json : Json
message_json =
    message_payload toy (node 7) (peer_pub_of toy (node 8) (lit "bob") (lit "10.42.0.2")) (lit "hi")
      (lit "u1") 5000

abbrev message_read : Json
message_read = sorted_message toy (node 7) (node 8) (lit "hi") (lit "u1") 5000

abbrev message_platform : Platform
message_platform =
    reading (inner_of message_json (7 ∷ 1 ∷ []))
      (contents_of message_json message_read (7 ∷ 1 ∷ []))

message-IsRead : IsRead message_platform message_json message_read (7 ∷ 1 ∷ [])
unfolding canonicalize message_payload to_b64 vpn_pi.Tests.Toy.execute
    vpn_pi.Canonical.encode_string peer_pub_of vpn_pi.Common.str_beq
message-IsRead =
    IsRead-one message_platform message_json message_read (7 ∷ 1 ∷ []) (signed_of message_json)
      (inner_of message_json (7 ∷ 1 ∷ [])) refl refl refl

abbrev no_messages : MessageBook
no_messages = record { logs = []; seen = [] }

-- A message whose body has no text: its reading throws, after its id was marked.
abbrev unreadable : Json
unreadable = obj (
    field (lit "body") (obj (field (lit "toString") null end)) (
      field (lit "id") (str (lit "u1")) (
        field (lit "node") (str (lit "n"))
          (field (lit "to") (str (lit "t")) (field (lit "ts") (str (5000 ∷ [])) end)))))

body_throws :
    (guard_message message_platform unreadable 6000 no_messages
      ≡ ok (mark_seen (lit "u1") 5000 6000 no_messages).1)
    × (read_message message_platform unreadable ≡ err other_error)
unfolding guard_message mark_seen read_message vpn_pi.Json.property vpn_pi.Json.member
    vpn_pi.Json.has_text vpn_pi.Json.as_text vpn_pi.Json.text_of vpn_pi.Json.text_or_undefined
    vpn_pi.Common.str_beq vpn_pi.Common.Maps.get
body_throws = (refl, refl)

open_message-seal_message_example :
    (blob : Str) × (seal_message message_platform
        (node 7)
        (peer_pub_of message_platform (node 8) (lit "bob") (lit "10.42.0.2"))
        (lit "hi")
        (lit "u1")
        4
        5000
      ≡ ok blob)
    × (open_message message_platform (node 8) blob (λ s. some (7 ∷ 1 ∷ [])) 6000 no_messages ≡ (
      ok (record {
        id = some (lit "u1");
        sender = to_b64 message_platform (7 ∷ 1 ∷ []);
        to = to_b64 message_platform (8 ∷ 1 ∷ []);
        body = lit "hi";
        ts = 5000 ∷ [];
      }),
      (mark_seen (lit "u1") 5000 6000 no_messages).1,
    ))
unfolding vpn_pi.Tests.Toy.execute message_payload vpn_pi.Tests.Toy.program peer_pub_of to_b64
    vpn_pi.Common.Maps.get
open_message-seal_message_example =
    open_message-seal_message message_platform (reading-IsLawful _ _) (node 7) (node 8) (lit "bob")
      (lit "10.42.0.2") (lit "hi") (lit "u1") 4 5000 6000 (λ s. some (7 ∷ 1 ∷ [])) no_messages
      (record { public = refl; secret = refl; box = refl })
      (record { public = refl; secret = refl; box = refl }) message-IsRead refl (λ e. absurd (cc))
      refl (omega arith) (omega arith)
