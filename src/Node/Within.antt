-- ===== src/Node/Within.antt =====
-- What every handler of main.ts does to the node: a sequence of a few kinds of change, so that a
-- relation which these changes respect holds between the node before and the node after.
use vpn_pi.Common.{
  ℕ, ◌+◌, ◌≡◌, ◌||◌, ltb, sym, subst, Bool, true, false, arith, [], str_eq, ◌==◌, Bool-cases, List,
  Str, inl, inr, if◌then◌else◌,
}
use vpn_pi.Errors.{Thrown}
use vpn_pi.Errors.Result.{Result, ok, err}
use vpn_pi.Json.{Json}
use vpn_pi.RateLimit.{Limiter}
use vpn_pi.Friends.Book.{FriendBook}
use vpn_pi.Friends.History.{Call, step, after}
use vpn_pi.Messages.{MessageBook}
use vpn_pi.Gate.{Gate}
use vpn_pi.Share.{Share}
use vpn_pi.Daemon.{Ctx, Request, require_operator, require_admin}
use vpn_pi.Node.State.{
  Config, World, Node, Delivery, Act, proceed, on_book, on_ctx, on_messages, put_book, persist,
  deliver, deliver_if_any, ◌>>=◌, ◌>>◌, give, pure, reading,
}
use vpn_pi.Platform.{Platform}

abbrev pub with_book : Node → FriendBook → Node
with_book n b = record n { ctx = record n.ctx { book = b } }

-- `persist` as a change of the node.
abbrev pub persisted : Node → Node
persisted n = (persist n).1

pub record IsOrder (R : Node → Node → Type 0) : Type 0 where
  pub same : (n : Node) → R n n
  pub then_also : (a b c : Node) → R a b → R b c → R a c

-- The changes: the limiter, a call of the friend book that is then persisted, messages that are
-- then persisted or, where the call throws, are not, the gate, the share, what was sent, and one more visitor
-- who waits for the marker's removal.
pub record Respects (p : Platform) (R : Node → Node → Type 0) : Type 0 where
  pub order : IsOrder R
  pub open order use *
  pub limiter :
      (n : Node) (l : Limiter) → R n (record n { ctx = record n.ctx { auth_limiter = l } })
  pub call : (n : Node) (c : Call) → R n (persisted (with_book n (step p n.ctx.book c)))
  pub mail : (n : Node) (m : MessageBook) → R n (persisted (record n { messages = m }))
  pub marking : (n : Node) (m : MessageBook) → R n (record n { messages = m })
  pub gating : (n : Node) (g : Gate) → R n (record n { gate = g })
  pub sharing : (n : Node) (s : Share) → R n (record n { share = s })
  pub sending : (n : Node) (ds : List Delivery) → R n (record n { sent = ds })
  pub visiting : (n : Node) → n.first_run ≡ true → R n (record n { revealing = n.revealing + 1 })

abbrev pub Within {ℓ} : {A : Type ℓ} → (Node → Node → Type 0) → Act A → Type 0
Within R f = (n : Node) → R n (f n).1

module _ {R : Node → Node → Type 0} (order : IsOrder R) where
  open order use {same, then_also}

  proceed-Within {ℓ κ} :
      {A : Type ℓ} {B : Type κ} (n : Node) (r : Result Thrown A × Node) (next : A → Act B)
      → R n r.1
      → ((a : A) → Within R (next a))
      → R n (proceed r next).1
  proceed-Within n (ok a, n') next h k = then_also n n' (next a n').1 h (k a n')
  proceed-Within n (err e, n') next h k = h

  pub bind-Within {ℓ κ} :
      {A : Type ℓ} {B : Type κ} (f : Act A) (next : A → Act B)
      → Within R f
      → ((a : A) → Within R (next a))
      → Within R (f >>= next)
  unfolding ◌>>=◌
  bind-Within f next h k n = proceed-Within n (f n) next (h n) k

  pub seq-Within {κ} :
      {B : Type κ} (f : Act (Unit {0})) (next : Act B)
      → Within R f
      → Within R next
      → Within R (f >> next)
  unfolding ◌>>◌
  seq-Within f next h k n = proceed-Within n (f n) (λ u. next) (h n) (λ u. k)

  pub pure-Within {ℓ} : {A : Type ℓ} (r : Result Thrown A) → Within R (pure r)
  unfolding pure
  pure-Within r n = same n

  pub give-Within {ℓ} : {A : Type ℓ} (a : A) → Within R (give a)
  unfolding give
  give-Within a n = same n

  pub reading-Within {ℓ} : {A : Type ℓ} (f : Node → A) → Within R (reading f)
  unfolding reading
  reading-Within f n = same n

  -- The parts that change nothing, before the rest.
  pub pure_then-Within {ℓ κ} :
      {A : Type ℓ} {B : Type κ} (r : Result Thrown A) (next : A → Act B)
      → ((a : A) → Within R (next a))
      → Within R (pure r >>= next)
  pure_then-Within r next = bind-Within (pure r) next (pure-Within r)

  pub reading_then-Within {ℓ κ} :
      {A : Type ℓ} {B : Type κ} (f : Node → A) (next : A → Act B)
      → ((a : A) → Within R (next a))
      → Within R (reading f >>= next)
  reading_then-Within f next = bind-Within (reading f) next (reading-Within f)

  pub branch-Within {ℓ} :
      {A : Type ℓ} (b : Bool) (f g : Act A)
      → Within R f
      → Within R g
      → Within R (if b then f else g)
  branch-Within true f g h k = h
  branch-Within false f g h k = k

module _ {p : Platform} {R : Node → Node → Type 0} (rules : Respects p R) where
  open rules use {same, then_also, limiter, call, mail, marking, sending}

  -- What follows a `persist`, if it does not throw.
  pub persist-Within {κ} :
      {B : Type κ} (n m : Node) (next : Act B)
      → R n (persisted m)
      → Within R next
      → R n ((persist >> next) m).1
  unfolding persist ◌>>◌
  persist-Within n m next h k = elim (Bool-cases (m.ctx.credentials.mock || ltb 2 m.writes)) [
    | inl fine ↦ rw fine (then_also n (persisted m) (next (persisted m)).1 h (k (persisted m)))
    | inr failed ↦ rw failed h
  ]

  -- A call of the friend book and `persist`: if the call throws, nothing has changed.
  called-Within {ℓ κ} :
      {A : Type ℓ} {B : Type κ} (n : Node) (c : Call) (r : Result Thrown (A × FriendBook))
      (next : A → Act B)
      → step p n.ctx.book c ≡ after n.ctx.book r
      → ((a : A) → Within R (next a))
      → R n (proceed (put_book n r) (λ a. persist >> next a)).1
  called-Within n c (ok (a, b)) next e h =
      let first = subst (λ b. R n (persisted (with_book n b))) e (call n c) in
      persist-Within n (with_book n b) (next a) first (h a)
  called-Within n c (err x) next e h = same n

  pub call-Within {ℓ κ} :
      {A : Type ℓ} {B : Type κ} (c : Call) (operation : FriendBook → Result Thrown (A × FriendBook))
      (next : A → Act B)
      → ((b : FriendBook) → step p b c ≡ after b (operation b))
      → ((a : A) → Within R (next a))
      → Within R (on_book operation >>= λ a. persist >> next a)
  unfolding on_book ◌>>=◌
  call-Within c operation next e h n =
      called-Within n c (operation n.ctx.book) next (e n.ctx.book) h

  mailed-Within {κ} :
      {B : Type κ} (n : Node) (r : Result Thrown (Unit {0})) (m : MessageBook) (next : Act B)
      → Within R next
      → R n (proceed (r, record n { messages = m }) (λ u. persist >> next)).1
  mailed-Within n (ok u) m next h = persist-Within n (record n { messages = m }) next (mail n m) h
  mailed-Within n (err e) m next h = marking n m

  pub mail-Within {κ} :
      {B : Type κ} (operation : MessageBook → Result Thrown (Unit {0}) × MessageBook) (next : Act B)
      → Within R next
      → Within R (on_messages operation >> (persist >> next))
  unfolding on_messages ◌>>◌
  mail-Within operation next h n =
      mailed-Within n (operation n.messages).0 (operation n.messages).1 next h

  pub deliver_if_any-Within :
      (cfg : Config) (w : World) (wg0 path : Str) (body : Json)
      → Within R (deliver_if_any cfg w wg0 path body)
  unfolding deliver_if_any deliver give
  deliver_if_any-Within cfg w wg0 path body n = elim (Bool-cases (wg0 == [])) [
    | inl none_there ↦ rw none_there (same n)
    | inr there ↦ rw there (sending n _)
  ]

  pub deliver-Within :
      (cfg : Config) (w : World) (wg0 path : Str) (body : Json)
      → Within R (deliver cfg w wg0 path body)
  unfolding deliver
  deliver-Within cfg w wg0 path body n = sending n _

  module _ (sha256 : Str → List ℕ) (req : Request) (now pushed : ℕ) where
    operator-limiter :
        (c : Ctx)
        → (require_operator sha256 req now pushed c).1
          ≡ record c { auth_limiter = (require_operator sha256 req now pushed c).1.auth_limiter }
    unfolding require_operator
    operator-limiter c = ground arith

    admin-limiter :
        (c : Ctx)
        → (require_admin sha256 req now pushed c).1
          ≡ record c { auth_limiter = (require_admin sha256 req now pushed c).1.auth_limiter }
    unfolding require_admin
    admin-limiter c = ground arith

    pub require_operator-Within : Within R (on_ctx (require_operator sha256 req now pushed))
    unfolding on_ctx
    require_operator-Within n =
        subst (λ c. R n (record n { ctx = c })) (sym (operator-limiter n.ctx)) (limiter n _)

    pub require_admin-Within : Within R (on_ctx (require_admin sha256 req now pushed))
    unfolding on_ctx
    require_admin-Within n =
        subst (λ c. R n (record n { ctx = c })) (sym (admin-limiter n.ctx)) (limiter n _)
