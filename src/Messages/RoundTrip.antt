-- ===== src/Messages/RoundTrip.antt =====
-- The round trip of sealMessage and openMessage (core/messages.ts).
use vpn_pi.Common.{
  ℕ, ◌+◌, ◌≤◌, ◌≡◌, ◌≢◌, refl, ap, sym, ◌∙◌, true, false, not, ◌||◌, Option, some, [], ◌∷◌, Str,
  lit, str_eq, str_beq_iff, ◌==◌, ltb, arith,
}
use vpn_pi.Common.Maps
use vpn_pi.Errors.Result.{ok}
use vpn_pi.Json.{Json, obj, str, field, end, property}
use vpn_pi.Canonical.{canonicalize}
use vpn_pi.Platform.{Bytes, Platform, IsLawful}
use vpn_pi.Codec.{to_b64, from_b64, from_b64-to_b64}
use vpn_pi.Identity.{Identity, IsKeyed}
use vpn_pi.Envelope.{open_verify}
use vpn_pi.Envelope.RoundTrip.{IsRead, open_verify-seal_sign}
use vpn_pi.Friends.Wire.{peer_pub_of}
use vpn_pi.Messages.{
  MessageBook, max_msg_age_ms, max_msg_skew_ms, in_freshness_window, message_payload, seal_message,
  open_message, addressed_payload, read_message, guard_message, message_of, mark_seen,
}

module _ (p : Platform) where
  -- The payload as JSON.parse reads its canonical text, in which the keys are sorted.
  abbrev pub sorted_message : Identity → Identity → (body uuid : Str) → (ts : ℕ) → Json
  sorted_message self friend body uuid ts = obj (
      field (lit "body") (str body) (
        field (lit "id") (str uuid) (
          field (lit "node") (str (to_b64 p self.ed_public)) (
            field (lit "to") (str (to_b64 p friend.ed_public)) (
              field (lit "ts") (str (p.iso_date ts))
                (field (lit "typ") (str (lit "message")) end))))))

  guard_message-new :
      (self friend : Identity) (body uuid : Str) (ts now : ℕ) (b : MessageBook)
      → IsLawful p
      → uuid ≢ []
      → Maps.has uuid b.seen ≡ false
      → now ≤ ts + max_msg_age_ms
      → ts ≤ now + max_msg_skew_ms
      → guard_message p (sorted_message self friend body uuid ts) now b
        ≡ ok (mark_seen uuid ts now b).1
  unfolding guard_message mark_seen vpn_pi.Json.has_text vpn_pi.Json.as_text vpn_pi.Json.property
      vpn_pi.Common.str_beq vpn_pi.Json.text_of vpn_pi.Json.text_or_undefined
  guard_message-new self friend body [] ts now b law filled unseen young early =
      absurd (filled refl)
  guard_message-new self friend body (c ∷ uuid) ts now b law filled unseen young early =
      let in_time : in_freshness_window ts now ≡ true = ground (arith, young, early) in
      rw (law.date ts, in_time, unseen) refl

  addressed_payload-ok :
      (friend : Identity) (blob : Str) (sealed : Bytes) (payload : Json)
      (verify_key_for : Str → Option Bytes)
      → from_b64 p blob ≡ some sealed
      → open_verify p sealed friend.x_public friend.x_private verify_key_for ≡ ok payload
      → property (lit "typ") payload ≡ some (str (lit "message"))
      → property (lit "to") payload ≡ some (str (to_b64 p friend.ed_public))
      → addressed_payload p friend blob verify_key_for ≡ ok payload
  unfolding addressed_payload vpn_pi.Common.str_beq
  addressed_payload-ok friend blob sealed payload keys given opened typ to =
      let addressed : (to_b64 p friend.ed_public == to_b64 p friend.ed_public) ≡ true =
        (str_beq_iff (to_b64 p friend.ed_public) (to_b64 p friend.ed_public)).1 refl in
      rw (given, opened, typ, to, addressed) refl

  read_message-sorted :
      (self friend : Identity) (body uuid : Str) (ts : ℕ)
      → read_message p (sorted_message self friend body uuid ts)
        ≡ ok (record {
          id = some uuid;
          sender = to_b64 p self.ed_public;
          to = to_b64 p friend.ed_public;
          body = body;
          ts = p.iso_date ts;
        })
  unfolding read_message message_of vpn_pi.Json.has_text vpn_pi.Json.as_text vpn_pi.Json.property
      vpn_pi.Common.str_beq vpn_pi.Json.text_of vpn_pi.Json.text_or_undefined
  read_message-sorted self friend body uuid ts = refl

  -- A message that a node seals for a friend opens there: over libsodium, JSON and dates that
  -- behave as documented, if the friend's book knows the sender's key, the id is not empty and not
  -- one it has seen, and the message's time is no more than the window's age before and its skew
  -- after the friend's clock. The friend reads the sender, the body, the id and the time that were
  -- sealed, and its book then is the one with that id marked as seen.
  pub open_message-seal_message :
      IsLawful p
      → (self friend : Identity) (label wg0 body uuid : Str) (entropy ts now : ℕ)
        (verify_key_for : Str → Option Bytes) (b : MessageBook)
      → IsKeyed p self
      → IsKeyed p friend
      → IsRead p
          (message_payload p self (peer_pub_of p friend label wg0) body uuid ts)
          (sorted_message self friend body uuid ts)
          self.ed_secret
      → verify_key_for (to_b64 p self.ed_public) ≡ some self.ed_public
      → uuid ≢ []
      → Maps.has uuid b.seen ≡ false
      → now ≤ ts + max_msg_age_ms
      → ts ≤ now + max_msg_skew_ms
      → (blob : Str) × (seal_message p self (peer_pub_of p friend label wg0) body uuid entropy ts
          ≡ ok blob)
        × (open_message p friend blob verify_key_for now b ≡ (
          ok (record {
            id = some uuid;
            sender = to_b64 p self.ed_public;
            to = to_b64 p friend.ed_public;
            body = body;
            ts = p.iso_date ts;
          }),
          (mark_seen uuid ts now b).1,
        ))
  unfolding seal_message open_message message_payload canonicalize peer_pub_of vpn_pi.Json.as_text
      vpn_pi.Json.property vpn_pi.Common.str_beq vpn_pi.Json.text_of vpn_pi.Json.text_or_undefined
  open_message-seal_message law self friend label wg0 body uuid entropy ts now keys b k v read key
        filled unseen young early =
      let node = to_b64 p self.ed_public in
      let payload = message_payload p self (peer_pub_of p friend label wg0) body uuid ts in
      let parsed = sorted_message self friend body uuid ts in
      let named : keys node ≡ some (p.sign_keypair self.seed).0 = key ∙ ap some k.public in
      let (blob, made, opened) =
        open_verify-seal_sign p law entropy self.seed friend.x_private payload parsed _ _ node keys
          refl refl refl (rw (sym k.secret) (read _ _ refl refl)) refl named in
      let recipient = from_b64-to_b64 p law friend.x_public in
      let given = from_b64-to_b64 p law blob in
      let addressed =
        addressed_payload-ok friend (to_b64 p blob) blob parsed keys given (rw v.box opened) refl
          refl in
      let guarded =
        guard_message-new self friend body uuid ts now b law filled unseen young early in
      (
        to_b64 p blob,
        rw (recipient, k.secret, v.box, made) refl,
        rw (open_message, addressed, guarded, read_message-sorted self friend body uuid ts) refl,
      )
