-- ===== src/Tests/Spokes.antt =====
-- A download through another node, at a concrete file.
use vpn_pi.Common.{◌≡◌, ◌≢◌, refl, ap, ◌∙◌, ℕ, All, some, none, [], ◌∷◌, Str, lit}
use vpn_pi.Errors.{Thrown}
use vpn_pi.Errors.Result.{Result, ok, err}
use vpn_pi.Share.{FileContent, new_share, run, adds, get_file}
use vpn_pi.Share.Remote.{RemotePeer, remote_get, ascii_name}
use vpn_pi.Daemon.{authorize_share}
use vpn_pi.Node.State.{Node, Http}
use vpn_pi.Node.Files.{download_route}
use vpn_pi.Node.Routes.{answer_of}
use vpn_pi.Node.Spoke.{download_reply, remote_get-download_route}
use vpn_pi.Tests.Served.{runtime, config, bob, at, ask}

abbrev vega : Node
vega = record bob {
  share = run (new_share 5) (adds (lit "café.txt") (1 ∷ 2 ∷ []) (lit "bob") none 10 ∷ []);
}

abbrev request : Http
request = ask (lit "GET") (lit "/api/files/1/download") [] (lit "op")

abbrev vega_peer : RemotePeer
vega_peer = record {
  list_call = none;
  add_call = λ name content content_type. none;
  get_call = λ id.
      download_reply (λ s. some s)
        (answer_of runtime config (at 1000) request
          (download_route runtime config (at 1000) request id vega).0);
  remove_call = λ id. none;
}

let_in : authorize_share runtime.sha256 request.guard vega.ctx ≡ ok (lit "bob")
unfolding authorize_share vpn_pi.Daemon.is_operator vpn_pi.Auth.manage_ok vpn_pi.Auth.operator_ok
    vpn_pi.Common.contains vpn_pi.Auth.loopback vpn_pi.Common.str_beq vpn_pi.Auth.token_ok
let_in = refl

abbrev name_of : Result Thrown FileContent → Str
name_of (ok f) = f.name
name_of (err e) = []

stored_name : (f : FileContent) → get_file 1 vega.share ≡ ok f → f.name ≢ []
unfolding get_file vpn_pi.Common.Maps.get run vpn_pi.Share.step vpn_pi.Share.add_file new_share
    vpn_pi.Common.Maps.set vpn_pi.Share.sanitize_file_name vpn_pi.Common.str_beq vpn_pi.Common.trim
stored_name f h e =
    let named : lit "café.txt" ≡ f.name = ap name_of h in
    let empty : lit "café.txt" ≡ [] = named ∙ e in absurd (cc)

remote_get-download_route_example :
    remote_get vega_peer 1
    ≡ ok (record {
      name = lit "caf_.txt";
      content_type = some (lit "application/octet-stream");
      content = 1 ∷ 2 ∷ [];
    })
unfolding get_file vpn_pi.Common.Maps.get run vpn_pi.Share.step vpn_pi.Share.add_file new_share
    vpn_pi.Common.Maps.set ascii_name vpn_pi.Share.sanitize_file_name vpn_pi.Common.str_beq
    vpn_pi.Common.trim
remote_get-download_route_example =
    remote_get-download_route (λ s. some s) runtime config (at 1000) request vega (lit "bob") 1
      vega_peer (λ id. refl) let_in stored_name
