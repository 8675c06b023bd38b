-- ===== src/Friends/Book.antt =====
-- core/friends.ts, lines 208 to 407: the friend book of a node. A method that throws leaves the
-- book as it was, and every method runs to its end before the next.
use vpn_pi.Common.{
  ℕ, ◌+◌, Bool, false, not, Option, none, some, List, [], ◌∷◌, map, Str, str_eq, nat_eq, ◌==◌, ltb,
  contains, add, if◌then◌else◌,
}
use vpn_pi.Common.Maps
use vpn_pi.Common.Maps.{Map}
use vpn_pi.Errors.{
  Thrown, friend_error, other_error, bad_signature, expired, already_used, self_friend, no_pending,
  malformed, no_offer, not_addressed, not_a_friend, stale,
}
use vpn_pi.Errors.Result.{Result, ok, err, ◌>>=◌, ◌>>◌, or_throw, ensure}
use vpn_pi.Platform.{Bytes, Platform}
use vpn_pi.Codec.{to_b64, from_b64}
use vpn_pi.Identity.{Identity}
use vpn_pi.Friends.Wire.{
  PeerPub, FriendToken, FriendAccept, FriendRevoke, revoke_signable, mesh_wg0, sign_json,
  verify_json, is_past, make_token, verify_token, make_accept, open_accept,
}

pub data FriendState : Type 0 where
  offered pending friends : FriendState

pub record FriendRecord : Type 0 where
  pub peer : PeerPub
  pub state : FriendState
  pub nonce : Str
  pub since : Str

pub record Pending : Type 0 where
  pub token : FriendToken
  pub received : Str

-- `BookData`, and the maps of `FriendBook`.
pub record BookData : Type 0 where
  pub offered : Map Str FriendToken
  pub pending : Map Str Pending
  pub friends : Map Str FriendRecord
  pub consumed : List Str

pub record FriendBook : Type 0 where
  pub id : Identity
  pub label : Str
  pub wg0 : Str
  pub books : BookData
  pub open books use *

unfoldable pub new_book : Identity → (label wg0 : Str) → FriendBook
new_book id label wg0 = record {
  id = id;
  label = label;
  wg0 = wg0;
  books = record { offered = []; pending = []; friends = []; consumed = [] };
}

unfoldable pub revoke : Str → FriendBook → Bool × FriendBook
revoke peer b = (
  Maps.has peer b.friends,
  record b { books = record b.books { friends = Maps.delete peer b.friends } },
)

pub record Notice : Type 0 where
  pub notice : FriendRevoke
  pub wg0 : Str

module _ (p : Platform) where
  abbrev pub self_ed : FriendBook → Str
  self_ed b = to_b64 p b.id.ed_public

  unfoldable pub issue_token :
      (ttl_seconds : ℕ)
      → (random : Bytes) → (now : ℕ) → FriendBook
      → Result Thrown (FriendToken × FriendBook)
  issue_token ttl_seconds random now b = do
    token ← make_token p b.id b.label b.wg0 ttl_seconds random now
    ok (
      token,
      record b { books = record b.books { offered = Maps.set token.nonce token b.offered } },
    )

  unfoldable pub receive :
      FriendToken → (now : ℕ) → FriendBook → Result Thrown (PeerPub × FriendBook)
  receive token now b = do
    sender ← verify_token p token now
    ensure (not (contains token.nonce b.consumed)) (friend_error already_used)
    ensure (not (sender.ed25519 == self_ed b)) (friend_error self_friend)
    ok (
      sender,
      record b {
        books = record b.books {
          pending =
              Maps.set sender.ed25519 (record { token = token; received = p.iso_date now })
                b.pending;
        };
      },
    )

  -- `accept`, once the blob is made.
  abbrev pub befriend : Str → Pending → (now : ℕ) → FriendBook → FriendBook
  befriend giver q now b = record b {
    books = record b.books {
      pending = Maps.delete giver b.pending;
      consumed = add q.token.nonce b.consumed;
      friends =
          Maps.set giver
            (record {
              peer = q.token.sender;
              state = FriendState.friends;
              nonce = q.token.nonce;
              since = p.iso_date now;
            })
            b.friends;
    };
  }

  unfoldable pub accept :
      (giver : Str) → (entropy now : ℕ) → FriendBook → Result Thrown (Str × FriendBook)
  accept giver entropy now b = do
    q ← or_throw (Maps.get giver b.pending) (friend_error no_pending)
    ensure (not (is_past p q.token.expires now)) (friend_error expired)
    blob ← make_accept p b.id b.label b.wg0 q.token entropy now
    ok (blob, befriend giver q now b)

  abbrev pub confirmed : FriendAccept → (now : ℕ) → FriendRecord
  confirmed a now = record {
    peer = a.sender;
    state = FriendState.friends;
    nonce = a.ref;
    since = p.iso_date now;
  }

  unfoldable pub confirm :
      (blob_b64 : Str) → (now : ℕ) → FriendBook → Result Thrown (FriendRecord × FriendBook)
  confirm blob_b64 now b = do
    a ← open_accept p b.id blob_b64
    offer ← or_throw (Maps.get a.ref b.offered) (friend_error no_offer)
    ensure (not (contains a.ref b.consumed)) (friend_error already_used)
    ensure (not (is_past p offer.expires now)) (friend_error expired)
    ok (
      confirmed a now,
      record b {
        books = record b.books {
          offered = Maps.delete a.ref b.offered;
          consumed = add a.ref b.consumed;
          friends = Maps.set a.sender.ed25519 (confirmed a now) b.friends;
        };
      },
    )

  -- `none` where the source returns null.
  unfoldable pub issue_revoke :
      (peer : Str)
      → (random : Bytes) → (now : ℕ) → FriendBook
      → Result Thrown (Option Notice × FriendBook)
  issue_revoke peer random now b = elim (Maps.get peer b.friends) [
    | none ↦ ok (none, b)
    | some rec ↦ do
      let body : FriendRevoke = record {
        v = 1;
        sender = self_ed b;
        target = peer;
        nonce = to_b64 p random;
        at = p.iso_date now;
        sig = [];
      }
      sig ← sign_json p (revoke_signable body) b.id.ed_secret
      ok (
        some (record { notice = record body { sig = sig }; wg0 = rec.peer.wg0 }),
        record b { books = record b.books { friends = Maps.delete peer b.friends } },
      )
  ]

  abbrev pub revoke_skew_ms : ℕ
  revoke_skew_ms = 120000

  -- `at < Date.parse(rec.since) - REVOKE_SKEW_MS`, false where the stored date is unreadable.
  unfoldable pub is_stale : ℕ → Str → Bool
  is_stale at since = elim (p.parse_date since) [
    | none ↦ false
    | some began ↦ ltb (at + revoke_skew_ms) began
  ]

  unfoldable pub receive_revoke :
      FriendRevoke → FriendBook → Result Thrown (FriendRecord × FriendBook)
  receive_revoke n b = do
    ensure (n.v == 1) (friend_error malformed)
    ensure (n.target == self_ed b) (friend_error not_addressed)
    rec ← or_throw (Maps.get n.sender b.friends) (friend_error not_a_friend)
    ensure (not (contains n.nonce b.consumed)) (friend_error already_used)
    valid ← verify_json p (revoke_signable n) n.sig rec.peer.ed25519
    ensure valid (friend_error bad_signature)
    at ← or_throw (p.parse_date n.at) (friend_error malformed)
    ensure (not (is_stale at rec.since)) (friend_error stale)
    ok (
      rec,
      record b {
        books = record b.books {
          consumed = add n.nonce b.consumed;
          friends = Maps.delete n.sender b.friends;
        };
      },
    )

  -- `verifyKeyResolver`: every friend's key is decoded first, and one that cannot be throws.
  decode_keys : Map Str FriendRecord → Map Str Bytes → Result Thrown (Map Str Bytes)
  decode_keys [] keys = ok keys
  decode_keys ((k, r) ∷ m) keys = elim (from_b64 p r.peer.ed25519) [
    | none ↦ err other_error
    | some key ↦ decode_keys m (Maps.set r.peer.ed25519 key keys)
  ]

  unfoldable pub verify_key_resolver : FriendBook → Result Thrown (Str → Option Bytes)
  unfolding decode_keys
  verify_key_resolver b = do keys ← decode_keys b.friends []; ok (λ ed25519. Maps.get ed25519 keys)

abbrev values {ℓ} : {A : Type ℓ} → Map Str A → List A
values m = map (λ e. e.1) m

unfoldable pub list_friends : FriendBook → List FriendRecord
list_friends b = values b.friends

unfoldable pub list_pending : FriendBook → List (PeerPub × Str)
list_pending b = map (λ q. (q.token.sender, q.received)) (values b.pending)

unfoldable pub list_offered : FriendBook → List FriendToken
list_offered b = values b.offered

unfoldable pub is_friend : Str → FriendBook → Bool
is_friend peer b = Maps.has peer b.friends

unfoldable pub friend : Str → FriendBook → Option FriendRecord
friend peer b = Maps.get peer b.friends

-- The loop of `friendByWg0`, over the records that are left.
unfoldable pub find_wg0 : Str → Option FriendRecord → List FriendRecord → Option FriendRecord
find_wg0 ip found [] = found
find_wg0 ip none (r ∷ rs) =
    let next = if r.peer.wg0 == ip then some r else none in find_wg0 ip next rs
find_wg0 ip (some r') (r ∷ rs) =
    let rest = find_wg0 ip (some r') rs in if r.peer.wg0 == ip then none else rest

unfoldable pub friend_by_wg0 : Str → FriendBook → Option FriendRecord
unfolding find_wg0
friend_by_wg0 wg0 b = elim (mesh_wg0 wg0) [
  | none ↦ none
  | some ip ↦ if ip == b.wg0 then none else find_wg0 ip none (list_friends b)
]

-- `toJSON` and `fromJSON`: the maps go to objects and back in the same order, since no key of the
-- book is the text of an array index.
unfoldable pub to_json : FriendBook → BookData
to_json b = b.books

unfoldable pub from_json : Identity → (label wg0 : Str) → BookData → FriendBook
from_json id label wg0 books = record { id = id; label = label; wg0 = wg0; books = books }
