-- ===== src/Daemon.antt =====
-- main.ts: the guards of the node daemon's routes. The address is `server.requestIP`'s, empty
-- or "?" where the server has none; a header that is missing is the empty text.
pub mod Lockout
pub mod Membership
use vpn_pi.Common.{
  ℕ, Bool, true, false, not, Option, none, some, List, [], ◌∷◌, Str, str_eq, ◌==◌, if◌then◌else◌,
  get_or, lit,
}
use vpn_pi.Errors.{Thrown, rate_limited, forbidden}
use vpn_pi.Errors.Result.{Result, ok, err, ◌>>=◌, or_throw}
use vpn_pi.RateLimit.{Limiter, locked, fail, reset}
use vpn_pi.Auth.{Credentials, token_ok, manage_ok}
use vpn_pi.Friends.Wire.{PeerPub}
use vpn_pi.Friends.Book.{FriendBook, FriendRecord, friend_by_wg0}

-- What the guards read of a request.
pub record Request : Type 0 where
  pub ip : Option Str
  pub op_token : Str
  pub admin_token : Str

-- The part of `Ctx` that the guards use.
pub record Ctx : Type 0 where
  pub credentials : Credentials
  pub self_ed : Str
  pub book : FriendBook
  pub auth_limiter : Limiter

abbrev ip_or_empty : Request → Str
ip_or_empty req = get_or req.ip []

abbrev pub ip_or_mark : Request → Str
ip_or_mark req = get_or req.ip (lit "?")

-- A request to an operator route, with the clock's readings.
pub record Knock : Type 0 where
  pub req : Request
  pub now : ℕ
  pub pushed : ℕ

module _ (sha256 : Str → List ℕ) where
  unfoldable pub is_operator : Request → Ctx → Bool
  is_operator req ctx =
      manage_ok sha256 (ip_or_empty req) req.op_token req.admin_token ctx.credentials

  -- The identity that a share request acts for.
  unfoldable pub authorize_share : Request → Ctx → Result Thrown Str
  authorize_share req ctx =
      if is_operator req ctx
      then ok ctx.self_ed
      else elim (friend_by_wg0 (ip_or_empty req) ctx.book) [
        | none ↦ err forbidden
        | some r ↦ ok r.peer.ed25519
      ]

  -- `now` and `pushed` are the limiter's readings of the clock.
  unfoldable pub require_operator :
      Request → (now pushed : ℕ) → Ctx → Result Thrown (Unit {0}) × Ctx
  require_operator req now pushed ctx =
      let ip = ip_or_mark req in
      let (shut, l) = locked ip now ctx.auth_limiter in
      if shut
      then (err rate_limited, record ctx { auth_limiter = l })
      else if is_operator req ctx
      then (ok tt, record ctx { auth_limiter = reset ip l })
      else (err forbidden, record ctx { auth_limiter = fail ip now pushed l })

  unfoldable pub require_admin : Request → (now pushed : ℕ) → Ctx → Result Thrown (Unit {0}) × Ctx
  require_admin req now pushed ctx =
      let ip = ip_or_mark req in
      let (shut, l) = locked ip now ctx.auth_limiter in
      if ctx.credentials.mock
      then (ok tt, ctx)
      else if ctx.credentials.admin_token == []
      then (err forbidden, ctx)
      else if shut
      then (err rate_limited, record ctx { auth_limiter = l })
      else if not (token_ok sha256 req.admin_token ctx.credentials.admin_token)
      then (err forbidden, record ctx { auth_limiter = fail ip now pushed l })
      else (ok tt, record ctx { auth_limiter = reset ip l })

  unfoldable pub serve : Ctx → List Knock → Ctx
  serve ctx [] = ctx
  serve ctx (k ∷ ks) = serve (require_operator k.req k.now k.pushed ctx).1 ks
