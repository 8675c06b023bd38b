-- ===== src/Tests/Routes.antt =====
-- The share, the guards of the routes and the registry at concrete inputs.
use vpn_pi.Common.{
  ℕ, ◌≤◌, ◌<◌, ◌≡◌, ◌≢◌, ◌⊎◌, refl, Bool, true, false, Option, none, some, List, [], ◌∷◌, ◌++◌, Str,
  lit, str_eq, str_beq_iff, ◌==◌, leb, length, filterb, trim, get_or, if◌then◌else◌, arith, ◌*◌,
}
use vpn_pi.Identity.{Identity}
use vpn_pi.Errors.{Thrown, file_not_found, rate_limited, forbidden}
use vpn_pi.Errors.Result.{Result, ok, err}
use vpn_pi.Codec.{to_b64}
use vpn_pi.Canonical.{canonicalize}
use vpn_pi.RateLimit.{in_window}
use vpn_pi.Auth.{Credentials}
use vpn_pi.Friends.Wire.{mesh_wg0}
use vpn_pi.Friends.Book.{FriendBook, FriendRecord, FriendState, list_friends}
use vpn_pi.Share.{
  Share, SharedFile, Call, adds, removes, new_share, sanitize_file_name, add_file, get_file, list,
  run, step,
}
use vpn_pi.Share.Names.{IsSafeName, sanitize_file_name-IsSafeName}
use vpn_pi.Share.Quota.{stored_bytes, Newest, run-quota, run-Newest, get_file-add_file}
use vpn_pi.Daemon.{Request, Ctx, Knock, is_operator, authorize_share, require_operator, serve}
use vpn_pi.Daemon.Lockout.{refusals, require_operator-serve}
use vpn_pi.Daemon.Membership.{IsOnlyClaim, authorize_share-cases}
use vpn_pi.Registry.{
  RegistryRecord, Reply, code_not_found, found, signable, fingerprint, verify_announce, resolve,
  RegistryDb, IsTable, sign_record, register_announce, resolve_route,
}
use vpn_pi.Registry.Announcement.{resolve-register_announce}
use vpn_pi.Registry.Commitment.{resolve-commits}
use vpn_pi.Tests.Toy.{toy, toy-IsLawful}
use vpn_pi.Tests.Books.{alice_book}

abbrev uploads : List Call
uploads =
    adds (lit "a.txt") (1 ∷ 2 ∷ 3 ∷ []) (lit "alice") none 10
    ∷ adds (lit "big") (1 ∷ 2 ∷ 3 ∷ 4 ∷ []) (lit "bob") none 11
    ∷ adds (lit "../b.txt") (4 ∷ []) (lit "bob") none 12
    ∷ removes 1
    ∷ []

run-quota_example :
    ((run (new_share 5) uploads).total ≡ stored_bytes (run (new_share 5) uploads).rows)
    × (stored_bytes (run (new_share 5) uploads).rows ≤ 5)
run-quota_example = run-quota 5 uploads

run-Newest_example : Newest (run (new_share 5) uploads).next_id (list (run (new_share 5) uploads))
run-Newest_example = run-Newest 5 uploads

sanitize_file_name-IsSafeName_example : IsSafeName (sanitize_file_name (lit "../../etc/pass\"wd"))
sanitize_file_name-IsSafeName_example = sanitize_file_name-IsSafeName (lit "../../etc/pass\"wd")

abbrev stored : SharedFile
stored = record { id = 1; name = lit "a.txt"; size = 2; node = lit "alice"; modified = 10 }

abbrev after_upload : Share
after_upload = run (new_share 5) (adds (lit "x/a.txt") (1 ∷ 2 ∷ []) (lit "alice") none 10 ∷ [])

uploaded :
    add_file (lit "x/a.txt") (1 ∷ 2 ∷ []) (lit "alice") none 10 (new_share 5)
    ≡ ok (stored, after_upload)
unfolding add_file new_share sanitize_file_name run vpn_pi.Common.str_beq step trim
uploaded = refl

get_file-add_file_example :
    (get_file 1 after_upload
      ≡ ok (record {
        name = sanitize_file_name (lit "x/a.txt");
        content_type = none;
        content = 1 ∷ 2 ∷ [];
      }))
    × (get_file 1 (step after_upload (removes 1)) ≡ err file_not_found)
get_file-add_file_example =
    get_file-add_file (lit "x/a.txt") (1 ∷ 2 ∷ []) (lit "alice") none 10 (new_share 5) after_upload
      stored uploaded

-- A digest that keeps the text.
abbrev digest : Str → List ℕ
digest s = s

abbrev carol : FriendRecord
carol = record {
  peer = record {
    ed25519 = lit "carol";
    x25519 = lit "x";
    label = lit "carol";
    wg0 = lit "10.42.0.3";
  };
  state = FriendState.friends;
  nonce = lit "n";
  since = lit "s";
}

abbrev book : FriendBook
book = record alice_book {
  books = record { offered = []; pending = []; friends = (lit "carol", carol) ∷ []; consumed = [] };
}

abbrev ctx : Ctx
ctx = record {
  credentials = record { mock = false; op_token = lit "op"; admin_token = [] };
  self_ed = lit "alice";
  book = book;
  auth_limiter = record { max = 2; window_ms = 1000; hits = [] };
}

abbrev from : (ip op_token : Str) → Request
from ip op_token = record { ip = some ip; op_token = op_token; admin_token = [] }

abbrev guesses : List Knock
guesses =
    record { req = from (lit "10.42.0.9") (lit "a"); now = 10; pushed = 10 }
    ∷ record { req = from (lit "10.42.0.8") (lit "op"); now = 11; pushed = 11 }
    ∷ record { req = from (lit "10.42.0.9") (lit "b"); now = 12; pushed = 13 }
    ∷ []

require_operator-serve_example :
    (require_operator digest (from (lit "10.42.0.9") (lit "op")) 20 20 (serve digest ctx guesses)).0
    ≡ (if leb 2
          (length (filterb (in_window 1000 20) (refusals digest (lit "10.42.0.9") [] ctx guesses)))
        then err rate_limited
        else if is_operator digest (from (lit "10.42.0.9") (lit "op")) ctx
        then ok tt
        else err forbidden)
require_operator-serve_example =
    require_operator-serve digest 2 1000 20 20 ctx guesses (from (lit "10.42.0.9") (lit "op")) refl
      (omega arith)

carol-authorized : authorize_share digest (from (lit "10.42.0.3") []) ctx ≡ ok (lit "carol")
unfolding authorize_share is_operator vpn_pi.Auth.manage_ok vpn_pi.Auth.operator_ok
    vpn_pi.Common.contains vpn_pi.Auth.loopback vpn_pi.Common.str_beq vpn_pi.Auth.token_ok
    vpn_pi.Friends.Book.friend_by_wg0 mesh_wg0 vpn_pi.Common.starts_with
    vpn_pi.Friends.Book.new_book list_friends
carol-authorized = refl

authorize_share-cases_example :
    ((is_operator digest (from (lit "10.42.0.3") []) ctx ≡ true) × (lit "carol" ≡ lit "alice"))
    ⊎ ((r : FriendRecord) × (ip : Str) × (r.peer.ed25519 ≡ lit "carol")
        × (mesh_wg0 (lit "10.42.0.3") ≡ some ip)
        × (ip ≢ alice_book.wg0)
        × IsOnlyClaim ip r (list_friends book))
authorize_share-cases_example =
    authorize_share-cases digest (from (lit "10.42.0.3") []) ctx (lit "carol") carol-authorized

-- Upper case leaves a code as it is.
abbrev upper : Str → Str
upper s = s

abbrev announced : RegistryRecord
announced = record {
  ed25519 = 65 ∷ 7 ∷ 1 ∷ 2 ∷ 3 ∷ 4 ∷ 5 ∷ 6 ∷ 65 ∷ [];
  x25519 = lit "x";
  wg0 = lit "10.42.0.1";
  label = lit "alice";
}

abbrev signature : Str
signature =
    65 ∷ 7 ∷ 1 ∷ 2 ∷ 3 ∷ 4 ∷ 5 ∷ 6 ∷ (get_or (canonicalize (signable announced)) [] ++ 65 ∷ [])

abbrev registry : Str → Reply
registry code = found announced (some signature)

resolved : resolve toy upper registry (lit "ISL-0W0G4-0R40M") ≡ ok announced
unfolding resolve vpn_pi.Registry.assert_code_commits fingerprint vpn_pi.Tests.Toy.drop_last
    vpn_pi.Common.str_beq trim verify_announce vpn_pi.Friends.Wire.verify_json vpn_pi.Codec.from_b64
    canonicalize signable vpn_pi.Canonical.encode_string
resolved = refl

resolve-commits_example :
    (fingerprint toy upper announced.ed25519
      ≡ ok (upper (trim (upper (trim (lit "ISL-0W0G4-0R40M"))))))
    × ((sig : Str) × (found announced (some signature) ≡ found announced (some sig))
        × (verify_announce toy upper announced sig ≡ true))
resolve-commits_example =
    resolve-commits toy upper registry (lit "ISL-0W0G4-0R40M") announced resolved

-- Carl announces himself in an empty table.
abbrev no_record : RegistryRecord
no_record = record { ed25519 = []; x25519 = []; wg0 = []; label = [] }

abbrev rows_db : RegistryDb (Str → Option (RegistryRecord × Str))
rows_db = record {
  upsert = λ code r sig at rows k. if code == k then some (r, sig) else rows k;
  select = λ code rows. rows code;
}

rows_db-IsTable : IsTable rows_db
rows_db-IsTable = record {
  select-upsert = λ code r sig at rows. ground (arith, str_beq_iff code code);
  select-upsert_other = λ code other r sig at rows h. ground (arith, str_beq_iff code other);
}

abbrev carl : Identity
carl = record {
  seed = 7 ∷ 1 ∷ 2 ∷ 3 ∷ 4 ∷ 5 ∷ 6 ∷ [];
  ed_public = 7 ∷ 1 ∷ 2 ∷ 3 ∷ 4 ∷ 5 ∷ 6 ∷ [];
  ed_secret = 7 ∷ 1 ∷ 2 ∷ 3 ∷ 4 ∷ 5 ∷ 6 ∷ [];
  x_public = 2 ∷ [];
  x_private = 2 ∷ [];
}

abbrev part_or {ℓ} : {A : Type ℓ} → A → Result Thrown A → A
part_or d (ok a) = a
part_or d (err e) = d

abbrev own : RegistryRecord × Str
own = part_or (no_record, []) (sign_record toy upper carl (lit "10.42.0.7") (lit "carl"))

signed : sign_record toy upper carl (lit "10.42.0.7") (lit "carl") ≡ ok (own.0, own.1)
unfolding sign_record vpn_pi.Friends.Wire.sign_json canonicalize signable
signed = refl

abbrev no_rows : Str → Option (RegistryRecord × Str)
no_rows code = none

abbrev entry : Str × (Str → Option (RegistryRecord × Str))
entry = part_or ([], no_rows) (register_announce toy upper rows_db own.0 own.1 9 no_rows)

entered : register_announce toy upper rows_db own.0 own.1 9 no_rows ≡ ok (entry.0, entry.1)
unfolding register_announce verify_announce vpn_pi.Friends.Wire.verify_json vpn_pi.Codec.from_b64
    trim sign_record vpn_pi.Friends.Wire.sign_json canonicalize signable to_b64
    vpn_pi.Canonical.encode_string vpn_pi.Common.str_beq vpn_pi.Tests.Toy.drop_last fingerprint
entered = refl

trimmed : upper (trim entry.0) ≡ entry.0
unfolding trim register_announce verify_announce vpn_pi.Friends.Wire.verify_json
    vpn_pi.Codec.from_b64 sign_record vpn_pi.Friends.Wire.sign_json canonicalize signable to_b64
    vpn_pi.Canonical.encode_string vpn_pi.Common.str_beq vpn_pi.Tests.Toy.drop_last fingerprint
trimmed = refl

filled : (own.1 == []) ≡ false
unfolding sign_record vpn_pi.Common.str_beq vpn_pi.Friends.Wire.sign_json canonicalize signable
    to_b64
filled = refl

not_empty : own.1 ≢ []
not_empty e = let same = (str_beq_iff own.1 []).1 e in cc (same, filled)

resolve-register_announce_example :
    resolve toy upper (λ norm. resolve_route toy upper rows_db norm entry.1) entry.0 ≡ ok own.0
resolve-register_announce_example =
    resolve-register_announce toy toy-IsLawful upper carl
      (record { public = refl; secret = refl; box = refl }) _ rows_db rows_db-IsTable
      (lit "10.42.0.7") (lit "carl") own.1 entry.0 own.0 9 no_rows entry.1 signed entered trimmed
      refl not_empty
