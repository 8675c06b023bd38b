-- ===== src/Share/Remote.antt =====
-- RemoteFileShare of core/share.ts: a node's view of the share of another node, and the name that
-- it reads from the header content-disposition, which main.ts writes for a download.
use vpn_pi.Common.{
  ℕ, Bool, not, ◌&&◌, ◌||◌, Option, none, some, [], ◌∷◌, ◌++◌, map, Str, lit, str_eq, nat_eq, ◌==◌,
  ltb, leb, drop, starts_with, get_or, if◌then◌else◌,
}
use vpn_pi.Errors.{Thrown, file_not_found, other_error}
use vpn_pi.Errors.Result.{Result, ok, err}
use vpn_pi.Platform.{Bytes}
use vpn_pi.Share.{SharedFile, FileContent, sanitize_file_name}
use vpn_pi.Share.Sqlite.{FilesSnapshot}

-- `name.replace(/[^\x20-\x7e]/g, "_").replace(/[\\"]/g, "_")` of main.ts.
abbrev pub ascii_unit : ℕ → ℕ
ascii_unit c = if leb 0x20 c && leb c 0x7e && not (c == 0x5c || c == 0x22) then c else 0x5f

unfoldable pub ascii_name : Str → Str
ascii_name name = map ascii_unit name

abbrev pub header_of : (name star : Str) → Str
header_of name star =
    lit "attachment; filename=\"" ++ (ascii_name name ++ (lit "\"; filename*=UTF-8''" ++ star))

abbrev pub header_if : (name : Str) → (star : Option Str) → Option Str
header_if name none = none
header_if name (some star) = some (header_of name star)

-- The header; `star_name` is the name by `encodeURIComponent`, which the repository does not
-- implement, with the quote, brackets and star escaped as well. It throws on a name with a lone
-- surrogate.
unfoldable pub disposition : (star_name : Str → Option Str) → (name : Str) → Option Str
disposition star_name name = header_if name (star_name name)

-- `([^"]+)`: up to the next quote.
unfoldable pub until_quote : Str → Str
until_quote [] = []
until_quote (c ∷ s) = let rest = until_quote s in if c == 0x22 then [] else c ∷ rest

-- `"?([^"]+)`; a text that begins with two quotes has no match.
unfoldable pub quoted_name : Str → Str
unfolding until_quote
quoted_name [] = []
quoted_name (c ∷ s) = if c == 0x22 then until_quote s else until_quote (c ∷ s)

-- The first match of `filename="?([^"]+)"?`.
unfoldable pub find_name : Str → Option Str
unfolding quoted_name
find_name [] = none
find_name (c ∷ s) =
    let later = find_name s in
    let name = quoted_name (drop 9 (c ∷ s)) in
    if starts_with (c ∷ s) (lit "filename=") && not (name == []) then some name else later

abbrev name_or_download : Option Str → Str
name_or_download none = lit "download"
name_or_download (some name) = name

-- `m?.[1] ?? "download"`.
unfoldable pub filename_from_disposition : Option Str → Str
unfolding find_name
filename_from_disposition none = lit "download"
filename_from_disposition (some cd) = name_or_download (find_name cd)

-- What the other node answers; the body of a listing and of an upload is what JSON.parse reads of
-- it, and a call that times out or cannot be sent is `none`.
pub record Reply (A : Type 0) : Type 0 where
  pub status : ℕ
  pub content_disposition : Option Str
  pub content_type : Option Str
  pub body : A

-- The calls that the methods make of it: GET and POST /api/files, GET /api/files/<id>/download and
-- DELETE /api/files/<id>.
pub record RemotePeer : Type 0 where
  pub list_call : Option (Reply FilesSnapshot)
  pub add_call : (name : Str) → (content : Bytes) → (content_type : Str) → Option (Reply SharedFile)
  pub get_call : ℕ → Option (Reply Bytes)
  pub remove_call : ℕ → Option (Reply (Unit {0}))

abbrev is_success : ℕ → Bool
is_success status = leb 200 status && ltb status 300

-- `if (!r.ok) throw new Error(…)`.
abbrev checked : {A : Type 0} → Option (Reply A) → Result Thrown (Reply A)
checked none = err other_error
checked (some r) = if is_success r.status then ok r else err other_error

-- A 404 is tested first.
abbrev found : {A : Type 0} → Option (Reply A) → Result Thrown (Reply A)
found none = err other_error
found (some r) =
    if r.status == 404
    then err file_not_found
    else if is_success r.status
    then ok r
    else err other_error

module _ (peer : RemotePeer) where
  unfoldable pub remote_list : Result Thrown FilesSnapshot
  remote_list = elim (checked peer.list_call) [ ok r ↦ ok r.body | err e ↦ err e ]

  -- The adder's name is not sent: the other node takes its own for it.
  unfoldable pub remote_add :
      (name : Str) → (content : Bytes) → (node : Str) → Option Str → Result Thrown SharedFile
  remote_add name content node content_type =
      elim (checked (
        peer.add_call (sanitize_file_name name) content
          (get_or content_type (lit "application/octet-stream")))) [
            | ok r ↦ ok r.body
            | err e ↦ err e
          ]

  unfoldable pub remote_get : ℕ → Result Thrown FileContent
  unfolding filename_from_disposition
  remote_get id = elim (found (peer.get_call id)) [
    | ok r ↦ ok (record {
      name = filename_from_disposition r.content_disposition;
      content_type = r.content_type;
      content = r.body;
    })
    | err e ↦ err e
  ]

  unfoldable pub remote_remove : ℕ → Result Thrown (Unit {0})
  remote_remove id = elim (found (peer.remove_call id)) [ ok r ↦ ok tt | err e ↦ err e ]
