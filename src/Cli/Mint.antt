-- ===== src/Cli/Mint.antt =====
-- The canary that the client of cli.ts prints, at the gate node (core/canary.ts).
use vpn_pi.Common.{
  ℕ, ◌*◌, ◌≤◌, ◌≡◌, ◌≢◌, refl, ap, sym, ◌∙◌, Option, none, some, List, [], ◌∷◌, ◌++◌, Str, lit,
  str_eq, str_beq_iff, ◌==◌, false, Bool-cases, inl, inr,
}
use vpn_pi.Common.Maps
use vpn_pi.Common.Maps.{Map}
use vpn_pi.Errors.Result.{ok}
use vpn_pi.Platform.{Bytes, IsLawful}
use vpn_pi.Codec.{to_b64}
use vpn_pi.Identity.{Identity, KeyFiles, IsKeyed, load_identity, load_identity-IsKeyed}
use vpn_pi.Envelope.RoundTrip.{IsRead}
use vpn_pi.Canary.{canary_payload, verify_canary, first_token, distance}
use vpn_pi.Canary.RoundTrip.{sorted_payload, verify_canary-make_canary}
use vpn_pi.Cli.Flags.{parse_flags}
use vpn_pi.Cli.Shell.{Env, Fresh, Net, words, Shell, lift, print, ◌>>=◌}
use vpn_pi.Cli.Keys.{
  status, read_keys, keyword_of, text_of, load_keys, delivered, mint_canary, run_cli,
}

filled : (a : Str) → a ≢ [] → (a == []) ≡ false
unfolding vpn_pi.Common.str_beq
filled [] h = absurd (h refl)
filled (c ∷ a) h = refl

module _ (env : Env) (fresh : Fresh) {S : Type 0} (net : Net S) where
  open env use {platform}
  open fresh use {random, entropy, now}

  -- `islandd canary` without --send, with the admin's key files in the directory named and the
  -- gate node's encryption key: it prints one line, sends nothing, leaves all else as it was and
  -- ends with status 0, and the printed text opens at the gate node as the canary of that admin,
  -- with the keyword and the text of the arguments (or their defaults), if the text begins with
  -- the keyword and the canary is seen within the freshness window. libsodium, JSON and dates
  -- behave as documented.
  pub run_cli-verify_canary :
      IsLawful platform
      → (argv : List Str) (f : Map Str Str) (dir : Str) (files : KeyFiles) (admin vega : Identity)
        (s : Shell S) (freshness_seconds seen : ℕ) (admin_verify : Str → Option Bytes)
      → parse_flags argv ≡ some f
      → Maps.get (lit "admin-dir") f ≡ some dir
      → dir ≢ []
      → Maps.get (lit "to-x25519") f ≡ some (to_b64 platform vega.x_public)
      → to_b64 platform vega.x_public ≢ []
      → Maps.get (lit "send") f ≡ none
      → read_keys env fresh net dir s.files ≡ some files
      → load_identity platform files ≡ some admin
      → IsKeyed platform vega
      → IsRead platform
          (canary_payload platform admin
            (keyword_of env fresh net f)
            (text_of env fresh net f)
            (to_b64 platform random)
            now)
          (sorted_payload platform admin
            (keyword_of env fresh net f)
            (text_of env fresh net f)
            (to_b64 platform random)
            now)
          admin.ed_secret
      → admin_verify (to_b64 platform admin.ed_public) ≡ some admin.ed_public
      → first_token (text_of env fresh net f) ≡ keyword_of env fresh net f
      → distance seen now ≤ freshness_seconds * 1000
      → (blob : Str) × (run_cli env fresh net (lit "canary" ∷ argv) s
          ≡ (status 0, record s { out = s.out ++ words blob ∷ [] }))
        × (verify_canary platform vega blob admin_verify
              (keyword_of env fresh net f)
              freshness_seconds
              seen
            ≡ ok (record {
              admin = to_b64 platform admin.ed_public;
              keyword = keyword_of env fresh net f;
              text = text_of env fresh net f;
              nonce = to_b64 platform random;
              issued = platform.iso_date now;
            }))
  unfolding run_cli mint_canary load_keys delivered lift print ◌>>=◌ vpn_pi.Common.str_beq
  run_cli-verify_canary law argv f dir files admin vega s freshness seen keys parsed at_dir named
        at_vega keyed no_send there loaded v read key first recent =
      let k = load_identity-IsKeyed platform files admin loaded in
      let (blob, made, opened) =
        verify_canary-make_canary platform law admin vega (keyword_of env fresh net f)
          (text_of env fresh net f) random entropy now freshness seen keys k v read key first
          recent in
      (
        blob,
        rw
            (
              parsed,
              at_dir,
              filled dir named,
              at_vega,
              filled (to_b64 platform vega.x_public) keyed,
              there,
              loaded,
              made,
              no_send,
            )
            refl,
        opened,
      )
