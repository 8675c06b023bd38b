-- ===== src/Friends/Binding.antt =====
-- The text of a token that is signed (tokenSignable of core/friends.ts).
use vpn_pi.Common.{
  false, some-injective, ◌≡◌, sym, ap, ◌∙◌, some, [], ◌∷◌, ◌++◌, Str, lit, str_eq, drop,
  append_assoc, arith,
}
use vpn_pi.Json.{number_text, integer}
use vpn_pi.Canonical.{canonicalize, encode_string}
use vpn_pi.Canonical.Strings.{IsUtf16, encode_string-prefix}
use vpn_pi.Friends.Wire.{FriendToken, peer_pub_json, token_signable}

-- One member of an object and what follows it.
abbrev entry : Str → Str → Str → Str
entry k v rest = encode_string k ++ (b':' ∷ (encode_string v ++ rest))

entry_inj :
    (k v w r u : Str)
    → IsUtf16 k
    → IsUtf16 v
    → IsUtf16 w
    → entry k v r ≡ entry k w u
    → (v ≡ w) × (r ≡ u)
entry_inj k v w r u hk hv hw e =
    let (same, rest) = encode_string-prefix k k _ _ hk hk e in
    encode_string-prefix v w r u hv hw (ap (drop 1) rest)

-- The text of a token, in the order of the sorted keys.
abbrev signed_text : FriendToken → Str
signed_text t =
    b'{'
    ∷ entry (lit "expires") t.expires (
        b','
        ∷ (encode_string (lit "from")
            ++ (b':'
                ∷ b'{'
                ∷ entry (lit "ed25519") t.sender.ed25519 (
                    b','
                    ∷ entry (lit "label") t.sender.label (
                        b','
                        ∷ entry (lit "wg0") t.sender.wg0 (
                            b','
                            ∷ entry (lit "x25519") t.sender.x25519 (
                                b'}'
                                ∷ b','
                                ∷ entry (lit "issued") t.issued (
                                    b','
                                    ∷ entry (lit "nonce") t.nonce (
                                        b','
                                        ∷ (encode_string (lit "v")
                                            ++ (b':'
                                                ∷ (number_text (integer false t.v)
                                                    ++ b'}' ∷ []))))))))))))

token_signable-text : (t : FriendToken) → canonicalize (token_signable t) ≡ some (signed_text t)
unfolding canonicalize token_signable peer_pub_json
token_signable-text t = simp append_assoc

-- Every text of the token is a text of 16-bit code units.
pub record IsText (t : FriendToken) : Type 0 where
  pub ed25519 : IsUtf16 t.sender.ed25519
  pub x25519 : IsUtf16 t.sender.x25519
  pub label : IsUtf16 t.sender.label
  pub wg0 : IsUtf16 t.sender.wg0
  pub nonce : IsUtf16 t.nonce
  pub issued : IsUtf16 t.issued
  pub expires : IsUtf16 t.expires

signed_text_inj :
    (t u : FriendToken)
    → IsText t
    → IsText u
    → signed_text t ≡ signed_text u
    → (t.sender ≡ u.sender) × (t.nonce ≡ u.nonce) × (t.issued ≡ u.issued) × (t.expires ≡ u.expires)
signed_text_inj t u ht hu h =
    let from : IsUtf16 (lit "from") = omega arith in
    let (expires, r1) =
      entry_inj (lit "expires") t.expires u.expires _ _ (omega arith) ht.expires hu.expires
        (ap (drop 1) h) in
    let (_, r2) = encode_string-prefix (lit "from") (lit "from") _ _ from from (ap (drop 1) r1) in
    let (ed25519, r3) =
      entry_inj (lit "ed25519") t.sender.ed25519 u.sender.ed25519 _ _ (omega arith) ht.ed25519
        hu.ed25519 (ap (drop 2) r2) in
    let (label, r4) =
      entry_inj (lit "label") t.sender.label u.sender.label _ _ (omega arith) ht.label hu.label
        (ap (drop 1) r3) in
    let (wg0, r5) =
      entry_inj (lit "wg0") t.sender.wg0 u.sender.wg0 _ _ (omega arith) ht.wg0 hu.wg0
        (ap (drop 1) r4) in
    let (x25519, r6) =
      entry_inj (lit "x25519") t.sender.x25519 u.sender.x25519 _ _ (omega arith) ht.x25519 hu.x25519
        (ap (drop 1) r5) in
    let (issued, r7) =
      entry_inj (lit "issued") t.issued u.issued _ _ (omega arith) ht.issued hu.issued
        (ap (drop 2) r6) in
    let (nonce, r8) =
      entry_inj (lit "nonce") t.nonce u.nonce _ _ (omega arith) ht.nonce hu.nonce
        (ap (drop 1) r7) in
    (ground arith, nonce, issued, expires)

-- Tokens with one signed text have the same sender, with all its keys and notes, and the same
-- nonce and times: a signature vouches for every field and cannot be moved to another token.
pub token_signable_inj :
    (t u : FriendToken)
    → IsText t
    → IsText u
    → canonicalize (token_signable t) ≡ canonicalize (token_signable u)
    → (t.sender ≡ u.sender) × (t.nonce ≡ u.nonce) × (t.issued ≡ u.issued) × (t.expires ≡ u.expires)
token_signable_inj t u ht hu h = signed_text_inj t u ht hu (
    some-injective (signed_text t) (signed_text u)
      (sym (token_signable-text t) ∙ (h ∙ token_signable-text u)))
