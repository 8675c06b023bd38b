-- ===== src/Envelope/Authenticity.antt =====
-- What openVerify (core/envelope.ts) checks, as a predicate on the payload.
use vpn_pi.Common.{◌≡◌, true, Option, some, Str, lit, arith}
use vpn_pi.Errors.{verification_error, other_error}
use vpn_pi.Errors.Result.{ok, or_throw, >>=-eq-ok}
use vpn_pi.Json.{Json, property, as_text}
use vpn_pi.Canonical.{canonicalize}
use vpn_pi.Platform.{Bytes, Platform}
use vpn_pi.Envelope.{open_verify, read_contents, check_signature}

module _ (p : Platform) (verify_key_for : Str → Option Bytes) where
  -- The payload names a node whose trusted key has signed its canonical text.
  pub record IsAuthentic (payload : Json) : Type 0 where
    pub node : Str
    pub key : Bytes
    pub text : Str
    pub signature : Bytes
    pub named : as_text (property (lit "node") payload) ≡ some node
    pub trusted : verify_key_for node ≡ some key
    pub encoded : canonicalize payload ≡ some text
    pub verified : p.verify signature text key ≡ some true

  read_contents-node :
      (contents payload : Json) (signature : Bytes) (node : Str)
      → read_contents p contents ≡ some (payload, signature, node)
      → as_text (property (lit "node") payload) ≡ some node
  unfolding read_contents
  read_contents-node contents payload signature node h = ground arith

  check_signature-IsAuthentic :
      (contents payload given : Json) (signature : Bytes) (node : Str)
      → as_text (property (lit "node") given) ≡ some node
      → check_signature p verify_key_for (given, signature, node) ≡ ok payload
      → IsAuthentic payload
  unfolding check_signature
  check_signature-IsAuthentic contents payload given signature node named h =
      let (key, trusted, h1) = >>=-eq-ok (or_throw (verify_key_for node) verification_error) _ h in
      let (text, encoded, h2) = >>=-eq-ok (or_throw (canonicalize given) other_error) _ h1 in
      let (valid, verified, h3) =
        >>=-eq-ok (or_throw (p.verify signature text key) other_error) _ h2 in
      let same : payload ≡ given = ground arith in
      record {
        node = node;
        key = key;
        text = text;
        signature = signature;
        named = rw same named;
        trusted = ground arith;
        encoded = rw same (ground arith);
        verified = ground arith;
      }

  -- An envelope opens only if the trusted key of the node that its payload names has signed the
  -- canonical text of exactly the payload that is returned.
  pub open_verify-IsAuthentic :
      (blob public private : Bytes) (payload : Json)
      → open_verify p blob public private verify_key_for ≡ ok payload
      → IsAuthentic payload
  unfolding open_verify
  open_verify-IsAuthentic blob public private payload h =
      let (inner, opened, h1) =
        >>=-eq-ok (or_throw (p.seal_open blob public private) verification_error) _ h in
      let (contents, parsed, h2) =
        >>=-eq-ok (or_throw (p.parse_json inner) verification_error) _ h1 in
      let ((given, signature, node), parts, h3) =
        >>=-eq-ok (or_throw (read_contents p contents) verification_error) _ h2 in
      check_signature-IsAuthentic contents payload given signature node
        (read_contents-node contents given signature node (ground arith)) h3
