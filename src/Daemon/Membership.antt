-- ===== src/Daemon/Membership.antt =====
-- Whom a request to the file share acts for (authorizeShare of main.ts).
use vpn_pi.Common.{
  ℕ, ◌≡◌, ◌≢◌, ◌⊎◌, inl, inr, true, none, some, List, [], ◌∷◌, Str, str_eq, str_beq_iff, ◌==◌, All,
  arith, Bool-cases, Option-cases, get_or,
}
use vpn_pi.Errors.Result.{ok}
use vpn_pi.Friends.Wire.{mesh_wg0}
use vpn_pi.Friends.Book.{FriendRecord, friend_by_wg0, find_wg0, list_friends}
use vpn_pi.Daemon.{Request, Ctx, is_operator, authorize_share}

-- Exactly one of the records claims the address, and it is `r`.
abbrev pub IsOnlyClaim : Str → FriendRecord → List FriendRecord → Type 0
IsOnlyClaim ip r [] = ⊥
IsOnlyClaim ip r (x ∷ xs) =
    ((x ≡ r) × (r.peer.wg0 ≡ ip) × All (λ y. y.peer.wg0 ≢ ip) xs)
    ⊎ ((x.peer.wg0 ≢ ip) × IsOnlyClaim ip r xs)

find_wg0-keep :
    (ip : Str) (r r' : FriendRecord) (rs : List FriendRecord)
    → find_wg0 ip (some r') rs ≡ some r
    → (r' ≡ r) × All (λ y. y.peer.wg0 ≢ ip) rs
unfolding find_wg0
find_wg0-keep ip r r' [] h = (cc, tt)
find_wg0-keep ip r r' (x ∷ xs) h = elim (Bool-cases (x.peer.wg0 == ip)) [
  | inl hit ↦ absurd (ground (arith, rw hit at h))
  | inr miss ↦
      let (a, b) = find_wg0-keep ip r r' xs (rw miss at h) in
      (a, ((λ e. absurd (ground (arith, str_beq_iff x.peer.wg0 ip))), b))
]

find_wg0-IsOnlyClaim :
    (ip : Str) (r : FriendRecord) (rs : List FriendRecord)
    → find_wg0 ip none rs ≡ some r
    → IsOnlyClaim ip r rs
unfolding find_wg0
find_wg0-IsOnlyClaim ip r [] h = absurd (cc)
find_wg0-IsOnlyClaim ip r (x ∷ xs) h = elim (Bool-cases (x.peer.wg0 == ip)) [
  | inl hit ↦
      let (a, b) = find_wg0-keep ip r x xs (rw hit at h) in
      let same = (str_beq_iff x.peer.wg0 ip).0 hit in inl (a, rw a at same, b)
  | inr miss ↦ inr (
    (λ e. absurd (ground (arith, str_beq_iff x.peer.wg0 ip))),
    find_wg0-IsOnlyClaim ip r xs (rw miss at h),
  )
]

module _ (sha256 : Str → List ℕ) where
  -- A share request acts for this node only if it is the operator's. Otherwise it acts for a friend
  -- whose mesh address is the request's, is not this node's own, and is claimed by no other friend.
  pub authorize_share-cases :
      (req : Request) (ctx : Ctx) (node : Str)
      → authorize_share sha256 req ctx ≡ ok node
      → ((is_operator sha256 req ctx ≡ true) × (node ≡ ctx.self_ed))
        ⊎ ((r : FriendRecord) × (ip : Str) × (r.peer.ed25519 ≡ node)
            × (mesh_wg0 (get_or req.ip []) ≡ some ip)
            × (ip ≢ ctx.book.wg0)
            × IsOnlyClaim ip r (list_friends ctx.book))
  unfolding authorize_share friend_by_wg0
  authorize_share-cases req ctx node h = elim (Bool-cases (is_operator sha256 req ctx)) [
    | inl operator ↦ inl (operator, ground arith)
    | inr other ↦ inr (elim (Option-cases (mesh_wg0 (get_or req.ip []))) [
      | inl none_ ↦ absurd (ground (arith, rw (other, none_) at h))
      | inr (ip, e) ↦ elim (Bool-cases (ip == ctx.book.wg0)) [
        | inl own ↦ absurd (ground (arith, rw (other, e, own) at h))
        | inr away ↦ elim (Option-cases (find_wg0 ip none (list_friends ctx.book))) [
          | inl no_one ↦ absurd (ground (arith, rw (other, e, away, no_one) at h))
          | inr (r, found) ↦
              let e' : r.peer.ed25519 ≡ node = ground (arith, rw (other, e, away, found) at h) in
              (
                r,
                ip,
                e',
                e,
                (λ e. absurd (ground (arith, str_beq_iff ip ctx.book.wg0))),
                find_wg0-IsOnlyClaim ip r (list_friends ctx.book) found,
              )
        ]
      ]
    ])
  ]
