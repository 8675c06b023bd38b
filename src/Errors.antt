-- ===== src/Errors.antt =====
-- The error classes of the node daemon (main.ts and core/*.ts), the results of fallible code, and
-- the HTTP status that main.ts answers with.
pub mod Result
use vpn_pi.Common.{ℕ}

-- The classes thrown, each with its messages where the source tells them apart.
pub data FriendFault : Type 0 where
  bad_version bad_signature expired already_used self_friend : FriendFault
  no_pending cannot_open malformed no_offer not_addressed not_a_friend stale : FriendFault
  invalid_request : FriendFault

pub data Thrown : Type 0 where
  payload_too_large share_quota_exceeded rate_limited file_not_found forbidden : Thrown
  verification_error canary_error registry_error event_error : Thrown
  friend_error : FriendFault → Thrown
  -- anything else: a plain `Error` or a `TypeError`
  other_error : Thrown

unfoldable pub error_status : Thrown → ℕ
error_status payload_too_large = 413
error_status share_quota_exceeded = 507
error_status rate_limited = 429
error_status file_not_found = 404
error_status forbidden = 403
error_status verification_error = 403
error_status canary_error = 403
error_status registry_error = 400
error_status event_error = 400
error_status (friend_error f) = 400
error_status other_error = 500
