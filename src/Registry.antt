-- ===== src/Registry.antt =====
-- core/registry.ts, the code fingerprint of core/friendcode.ts and the registry's two routes of
-- main.ts: a directory from short friend codes to self-signed records.
pub mod Announcement
pub mod Commitment
use vpn_pi.Common.{
  ℕ, zero, suc, ◌+◌, ◌*◌, ◌/◌, ◌%◌, ◌^◌, ◌≡◌, ◌≢◌, Bool, true, false, not, Option, none, some, List,
  [], ◌∷◌, ◌++◌, Str, lit, str_eq, ◌==◌, take, drop, trim, starts_with, length, get_or,
  if◌then◌else◌,
}
use vpn_pi.Errors.{Thrown, registry_error, other_error}
use vpn_pi.Errors.Result.{Result, ok, err, ◌>>=◌, ◌>>◌, or_throw, ensure}
use vpn_pi.Json.{Json, str, obj, field, end}
use vpn_pi.Platform.{Bytes, Platform}
use vpn_pi.Codec.{to_b64}
use vpn_pi.Identity.{Identity}
use vpn_pi.Friends.Wire.{sign_json, verify_json}

abbrev pub alphabet : Str
alphabet = lit "0123456789ABCDEFGHJKMNPQRSTVWXYZ"

-- `acc = (acc << 8n) | BigInt(hash[i]!)` for the first `n` bytes; a byte that is not there throws.
unfoldable pub first_bytes : ℕ → (acc : ℕ) → Bytes → Option ℕ
first_bytes zero acc bytes = some acc
first_bytes (suc n) acc [] = none
first_bytes (suc n) acc (b ∷ bytes) = first_bytes n (acc * 256 + b) bytes

-- The five-bit symbols of `acc`, the highest of `n` first.
unfoldable pub symbols : ℕ → (acc : ℕ) → Str
symbols zero acc = []
symbols (suc i) acc = take 1 (drop (acc / 2 ^ (i * 5) % 32) alphabet) ++ symbols i acc

-- Friend codes as the registry and the user exchange them.
abbrev pub reply_prefix : Str
reply_prefix = lit "island-reply1"

unfoldable pub encode_reply : Str → Str
encode_reply accept_blob = reply_prefix ++ accept_blob

unfoldable pub decode_reply : Str → Option Str
decode_reply code =
    if starts_with code reply_prefix then some (trim (drop (length reply_prefix) code)) else none

pub record RegistryRecord : Type 0 where
  pub ed25519 : Str
  pub x25519 : Str
  pub wg0 : Str
  pub label : Str

unfoldable pub signable : RegistryRecord → Json
signable r = obj (
    field (lit "ed25519") (str r.ed25519) (
      field (lit "label") (str r.label)
        (field (lit "wg0") (str r.wg0) (field (lit "x25519") (str r.x25519) end))))

-- The table `registry`, keyed by code, as its two statements use it.
pub record RegistryDb (S : Type 0) : Type 0 where
  pub upsert : (code : Str) → RegistryRecord → (sig announced : Str) → S → S
  pub select : (code : Str) → S → Option (RegistryRecord × Str)

-- What the two statements do: the row of the code is written whole, and no other.
pub record IsTable {S : Type 0} (db : RegistryDb S) : Type 0 where
  pub select-upsert :
      (code : Str) (r : RegistryRecord) (sig announced : Str) (s : S)
      → db.select code (db.upsert code r sig announced s) ≡ some (r, sig)
  pub select-upsert_other :
      (code other : Str) (r : RegistryRecord) (sig announced : Str) (s : S)
      → code ≢ other
      → db.select other (db.upsert code r sig announced s) ≡ db.select other s

-- What the registry's server answers to a client's GET: a record with, perhaps, its signature.
pub data Reply : Type 0 where
  code_not_found : Reply
  failed : (status : ℕ) → Reply
  found : RegistryRecord → Option Str → Reply

-- `to_upper` is `String.prototype.toUpperCase`.
module _ (p : Platform) (to_upper : Str → Str) where
  abbrev written : Str → Str
  written out = lit "ISL-" ++ (take 5 out ++ (lit "-" ++ drop 5 out))

  unfoldable pub fingerprint : (ed25519_b64 : Str) → Result Thrown Str
  unfolding first_bytes symbols
  fingerprint ed25519_b64 = do
    key ← or_throw (p.from_base64 ed25519_b64) other_error
    acc ← or_throw (first_bytes 7 0 (p.generichash key)) other_error
    ok (written (symbols 10 (acc / 2 ^ 6)))

  unfoldable pub code_matches : (ed25519_b64 code : Str) → Result Thrown Bool
  code_matches ed25519_b64 code = do
    print ← fingerprint ed25519_b64
    ok (print == to_upper (trim code))

  abbrev own_record : Identity → (wg0 label : Str) → RegistryRecord
  own_record id wg0 label = record {
    ed25519 = to_b64 p id.ed_public;
    x25519 = to_b64 p id.x_public;
    wg0 = wg0;
    label = label;
  }

  unfoldable pub sign_record : Identity → (wg0 label : Str) → Result Thrown (RegistryRecord × Str)
  sign_record id wg0 label = do
    sig ← sign_json p (signable (own_record id wg0 label)) id.ed_secret
    ok (own_record id wg0 label, sig)

  -- The `catch` makes every failure a false.
  abbrev true_or : Result Thrown Bool → Bool
  true_or (ok b) = b
  true_or (err e) = false

  unfoldable pub verify_announce : RegistryRecord → (sig : Str) → Bool
  verify_announce r sig = true_or (verify_json p (signable r) sig r.ed25519)

  unfoldable pub assert_code_commits : RegistryRecord → (code : Str) → Result Thrown (Unit {0})
  assert_code_commits r code = do
    print ← fingerprint r.ed25519
    ensure (print == to_upper (trim code)) registry_error

  unfoldable pub register_announce :
      {S : Type 0}
      → RegistryDb S
      → RegistryRecord
      → (sig : Str) → (now : ℕ) → S
      → Result Thrown (Str × S)
  register_announce db r sig now s = do
    ensure (verify_announce r sig) registry_error
    code ← fingerprint r.ed25519
    ok (code, db.upsert code r sig (p.iso_date now) s)

  -- GET /registry/resolve/<code>.
  unfoldable pub resolve_route : {S : Type 0} → RegistryDb S → (code : Str) → S → Reply
  resolve_route db code s = elim (db.select (to_upper code) s) [
    | none ↦ code_not_found
    | some (r, sig) ↦ found r (some sig)
  ]

  -- The client's checks of a reply; an empty signature counts as none.
  abbrev pub checked : Reply → (norm : Str) → Result Thrown RegistryRecord
  checked code_not_found norm = err registry_error
  checked (failed status) norm = err registry_error
  checked (found r sig) norm = do
    assert_code_commits r norm
    ensure (not (get_or sig [] == [])) registry_error
    ensure (verify_announce r (get_or sig [])) registry_error
    ok r

  -- `fetch` answers for the normalised code.
  unfoldable pub resolve : (fetch : Str → Reply) → (code : Str) → Result Thrown RegistryRecord
  resolve fetch code = let norm = to_upper (trim code) in checked (fetch norm) norm
