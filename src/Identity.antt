-- ===== src/Identity.antt =====
-- core/identity.ts: the keypairs that are a node's identity.
use vpn_pi.Common.{◌≡◌, Option, none, some, Str, arith}
use vpn_pi.Platform.{Bytes, Platform, IsLawful}
use vpn_pi.Codec.{to_b64, from_b64, from_b64-to_b64}

pub record Identity : Type 0 where
  pub seed : Bytes
  pub ed_public : Bytes
  pub ed_secret : Bytes
  pub x_public : Bytes
  pub x_private : Bytes

-- The key files of an identity's directory.
pub record KeyFiles : Type 0 where
  pub ed25519_key : Str
  pub ed25519_pub : Str
  pub x25519_key : Str
  pub x25519_pub : Str

module _ (p : Platform) where
  from_keys : Option Bytes → Option Bytes → Option Identity
  from_keys none x = none
  from_keys (some seed) none = none
  from_keys (some seed) (some x) =
      let (public, secret) = p.sign_keypair seed in
      some (record {
        seed = seed;
        ed_public = public;
        ed_secret = secret;
        x_public = p.box_public x;
        x_private = x;
      })

  -- The public keys are derived: the .pub files are not read.
  unfoldable pub load_identity : KeyFiles → Option Identity
  unfolding from_keys
  load_identity dir = from_keys (from_b64 p dir.ed25519_key) (from_b64 p dir.x25519_key)

  unfoldable pub save_identity : Identity → KeyFiles
  save_identity id = record {
    ed25519_key = to_b64 p id.seed;
    ed25519_pub = to_b64 p id.ed_public;
    x25519_key = to_b64 p id.x_private;
    x25519_pub = to_b64 p id.x_public;
  }

  -- The keys belong together, as `loadIdentity` makes them.
  pub record IsKeyed (id : Identity) : Type 0 where
    pub public : id.ed_public ≡ (p.sign_keypair id.seed).0
    pub secret : id.ed_secret ≡ (p.sign_keypair id.seed).1
    pub box : id.x_public ≡ p.box_public id.x_private

  pub load_identity-IsKeyed :
      (dir : KeyFiles) (id : Identity) → load_identity dir ≡ some id → IsKeyed id
  unfolding load_identity
  load_identity-IsKeyed dir id h = ground arith

  -- An identity with matching keys that is saved is loaded again whole.
  pub load_identity-save_identity :
      IsLawful p → (id : Identity) → IsKeyed id → load_identity (save_identity id) ≡ some id
  unfolding load_identity save_identity
  load_identity-save_identity law id k =
      ground (arith, from_b64-to_b64 p law id.seed, from_b64-to_b64 p law id.x_private)
