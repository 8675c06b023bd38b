-- ===== src/Node/Spoke.antt =====
-- A spoke that downloads a file from the share of another node: RemoteFileShare of core/share.ts
-- against the download route of main.ts.
use vpn_pi.Common.{
  ℕ, ◌≡◌, ◌≢◌, refl, ap, ◌∙◌, ◌⊎◌, nat_eq, none, some, Option, [], Str, lit, str_eq, ◌==◌,
  if◌then◌else◌, Option-cases, inl, inr,
}
use vpn_pi.Common.Maps
use vpn_pi.Errors.{Thrown, file_not_found, other_error, error_status}
use vpn_pi.Errors.Result.{Result, ok, err}
use vpn_pi.Platform.{Bytes}
use vpn_pi.Share.{FileContent, Share, get_file}
use vpn_pi.Share.Remote.{Reply, RemotePeer, remote_get, ascii_name, disposition}
use vpn_pi.Share.RemoteNames.{filename_from_disposition-header_of}
use vpn_pi.Daemon.{authorize_share}
use vpn_pi.Node.State.{Runtime, Config, World, Http, Node, Answer, failed, download, ◌>>=◌, give}
use vpn_pi.Node.Files.{member, download_route, on_share}
use vpn_pi.Node.Routes.{answer_of}

-- `contentType || "application/octet-stream"`.
abbrev pub type_or : Option Str → Str
type_or none = lit "application/octet-stream"
type_or (some s) = if s == [] then lit "application/octet-stream" else s

-- The response to a download. A header that cannot be made is the 500 of the handler's `catch`.
abbrev file_reply : FileContent → Option Str → Reply Bytes
file_reply f none = record {
  status = 500;
  content_disposition = none;
  content_type = none;
  body = [];
}
file_reply f (some header) = record {
  status = 200;
  content_disposition = some header;
  content_type = some (type_or f.content_type);
  body = f.content;
}

-- The response on the wire. The body of an error is not read.
unfoldable pub download_reply : (star_name : Str → Option Str) → Answer → Option (Reply Bytes)
download_reply star_name (download f) = some (file_reply f (disposition star_name f.name))
download_reply star_name (failed status) =
    some (record { status = status; content_disposition = none; content_type = none; body = [] })
download_reply star_name other = none

-- The other node as this one sees it, when its state is `n`.
abbrev pub ServesDownloads :
    (star_name : Str → Option Str) → Runtime → Config → World → Http → Node → RemotePeer → Type 0
ServesDownloads star_name rt cfg w req n peer =
    (id : ℕ)
    → peer.get_call id
      ≡ download_reply star_name (answer_of rt cfg w req (download_route rt cfg w req id n).0)

-- What a spoke gets of a file, by the escaped form of its name.
abbrev pub as_received : FileContent → (star : Option Str) → Result Thrown FileContent
as_received f none = err other_error
as_received f (some star) = ok (record {
  name = ascii_name f.name;
  content_type = some (type_or f.content_type);
  content = f.content;
})

abbrev pub as_downloaded :
    (star_name : Str → Option Str) → Result Thrown FileContent → Result Thrown FileContent
as_downloaded star_name (ok f) = as_received f (star_name f.name)
as_downloaded star_name (err e) = err e

get_file-cases :
    (id : ℕ) (s : Share)
    → ((f : FileContent) × (get_file id s ≡ ok f)) ⊎ (get_file id s ≡ err file_not_found)
unfolding get_file
get_file-cases id s = elim (Option-cases (Maps.get id s.rows)) [
  | inl gone ↦ rw gone (inr refl)
  | inr (r, found) ↦ rw found (inl (_, refl))
]

module _ (star_name : Str → Option Str) (rt : Runtime) (cfg : Config) (w : World) (req : Http)
    (n : Node) (node : Str) (id : ℕ) where
  answer-found :
      (f : FileContent)
      → authorize_share rt.sha256 req.guard n.ctx ≡ ok node
      → get_file id n.share ≡ ok f
      → answer_of rt cfg w req (download_route rt cfg w req id n).0 ≡ download f
  unfolding download_route member ◌>>=◌ give on_share
  answer-found f allowed found = rw (allowed, found) refl

  answer-gone :
      authorize_share rt.sha256 req.guard n.ctx ≡ ok node
      → get_file id n.share ≡ err file_not_found
      → answer_of rt cfg w req (download_route rt cfg w req id n).0 ≡ failed 404
  unfolding download_route member ◌>>=◌ give on_share error_status
  answer-gone allowed gone = rw (allowed, gone) refl

  -- A spoke that downloads through another node, which lets it in, gets what reading that id in the
  -- share there gives, an unknown id's "no file" included: the stored bytes, the stored type (or
  -- application/octet-stream), and the stored name with every unit outside of printable ASCII,
  -- every backslash and every quote replaced by "_". It gets an error, and no file, where the name
  -- cannot be escaped by encodeURIComponent. The stored name must not be empty.
  pub remote_get-download_route :
      (peer : RemotePeer)
      → ServesDownloads star_name rt cfg w req n peer
      → authorize_share rt.sha256 req.guard n.ctx ≡ ok node
      → ((f : FileContent) → get_file id n.share ≡ ok f → f.name ≢ [])
      → remote_get peer id ≡ as_downloaded star_name (get_file id n.share)
  unfolding remote_get download_reply disposition
  remote_get-download_route peer serves allowed named = elim (get_file-cases id n.share) [
    | inl (f, found) ↦
        let answer = serves id ∙ ap (download_reply star_name) (answer-found f allowed found) in
        elim (Option-cases (star_name f.name)) [
          | inl unescaped ↦ rw (remote_get, answer, found, unescaped) refl
          | inr (star, escaped) ↦
              let header = (filename_from_disposition-header_of f.name star (named f found)).0 in
              rw (remote_get, answer, found, escaped) (rw header refl)
        ]
    | inr gone ↦
        let answer = serves id ∙ ap (download_reply star_name) (answer-gone allowed gone) in
        rw (remote_get, answer, gone) refl
  ]
