-- ===== src/Node/Files.antt =====
-- main.ts, lines 860 to 897: the routes of the file share.
use vpn_pi.Common.{
  ℕ, Option, none, some, [], ◌∷◌, map, Str, lit, str_eq, ◌==◌, ltb, length, ◌*◌, if◌then◌else◌,
}
use vpn_pi.Errors.{Thrown, friend_error, invalid_request}
use vpn_pi.Errors.Result.{Result, ok, err, or_throw}
use vpn_pi.Json.{str, arr}
use vpn_pi.Share.{Share, list, add_file, get_file, remove_file}
use vpn_pi.Daemon.{authorize_share}
use vpn_pi.Node.State.{
  Runtime, Config, World, Http, Upload, Node, Answer, Act, json, download, no_content, give, pure,
  reading, ◌>>=◌, ◌>>◌,
}
use vpn_pi.Node.Json.{object, items, file_json}

abbrev pub max_upload : ℕ
max_upload = 25 * 1024 * 1024

module _ {ℓ} {A : Type ℓ} where
  abbrev pub put_share : Node → Result Thrown (A × Share) → Result Thrown A × Node
  put_share n (ok (a, s)) = (ok a, record n { share = s })
  put_share n (err e) = (err e, n)

  -- An operation of the share.
  unfoldable pub on_share : (Share → Result Thrown (A × Share)) → Act A
  on_share operation n = put_share n (operation n.share)

abbrev with_unit : Result Thrown Share → Result Thrown ((Unit {0}) × Share)
with_unit (ok s) = ok (tt, s)
with_unit (err e) = err e

module _ (rt : Runtime) (cfg : Config) (w : World) (req : Http) where
  open rt use {platform, sha256}

  -- The node that the request acts for.
  unfoldable pub member : Act Str
  member n = (authorize_share sha256 req.guard n.ctx, n)

  unfoldable pub list_route : Act Answer
  list_route = do
    node ← member
    files ← reading (λ n. list n.share)
    give (
        json 200 (
          object (
            (lit "root", str (lit "memory"))
            ∷ (lit "bind", str (lit "mock"))
            ∷ (lit "files", arr (items (map (file_json platform.iso_date) files)))
            ∷ [])))

  -- `file.type || undefined`.
  abbrev type_of : Str → Option Str
  type_of s = if s == [] then none else some s

  abbrev pub store : (node : Str) → Upload → Act Answer
  store node file = do
    added ← on_share (add_file file.name file.content node (type_of file.content_type) w.now)
    give (json 201 (file_json platform.iso_date added))

  unfoldable pub upload_route : Act Answer
  upload_route = do
    node ← member
    file ← pure (or_throw req.upload (friend_error invalid_request))
    (if ltb max_upload (length file.content)
        then give (json 413 (object ((lit "error", str (lit "file too large")) ∷ [])))
        else store node file)

  unfoldable pub download_route : (id : ℕ) → Act Answer
  download_route id = do
    node ← member
    file ← on_share (λ s. elim (get_file id s) [ ok f ↦ ok (f, s) | err e ↦ err e ])
    give (download file)

  unfoldable pub delete_file_route : (id : ℕ) → Act Answer
  delete_file_route id = do
    node ← member
    on_share (λ s. with_unit (remove_file id s))
    give no_content
