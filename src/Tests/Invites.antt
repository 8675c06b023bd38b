-- ===== src/Tests/Invites.antt =====
-- An invite at concrete bytes, over the toy platform.
use vpn_pi.Common.{ℕ, zero, suc, ◌≡◌, refl, arith, [], ◌∷◌, Str, lit}
use vpn_pi.Platform.{Bytes}
use vpn_pi.Errors.Result.{ok}
use vpn_pi.FriendCode.{encode_invite, decode_invite}
use vpn_pi.FriendCode.RoundTrip.{Parts, Fits, token_of, decode_invite-encode_invite}
use vpn_pi.Tests.Toy.{toy, toy-IsLawful, unwrap-trim}

abbrev repeat : ℕ → ℕ → Bytes
repeat zero b = []
repeat (suc n) b = b ∷ repeat n b

abbrev sample : Parts
sample = record {
  ed25519 = repeat 32 7;
  x25519 = repeat 32 8;
  label = lit "alice";
  wg0 = lit "10.42.0.2";
  nonce = repeat 16 9;
  issued = 1700000000000;
  expires = 1700086400000;
  sig = repeat 64 10;
}

abbrev same : Str → Str
same s = s

sample-Fits : Fits toy same same sample
sample-Fits = record {
  ed25519 = refl;
  x25519 = refl;
  nonce = refl;
  sig = refl;
  label = omega arith;
  wg0 = omega arith;
  issued = omega arith;
  expires = omega arith;
}

decode_invite-encode_invite_example :
    (code : Str) × (encode_invite toy same same (token_of toy same same sample) ≡ ok code)
    × (decode_invite toy same same code ≡ ok (token_of toy same same sample))
decode_invite-encode_invite_example =
    decode_invite-encode_invite toy same same sample toy-IsLawful unwrap-trim sample-Fits refl refl
