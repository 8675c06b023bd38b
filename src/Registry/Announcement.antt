-- ===== src/Registry/Announcement.antt =====
-- A node announces itself and another resolves its code (core/registry.ts).
use vpn_pi.Common.{
  ℕ, ◌≡◌, ◌≢◌, refl, subst, ap, true, false, some, [], Str, str_eq, str_beq_iff, ◌==◌, trim, arith,
}
use vpn_pi.Errors.{registry_error}
use vpn_pi.Errors.Result.{ok, >>=-eq-ok, ensure-ok}
use vpn_pi.Platform.{Platform, IsLawful}
use vpn_pi.Identity.{Identity, IsKeyed}
use vpn_pi.Friends.Wire.{sign_json}
use vpn_pi.Friends.Handshake.{verify_json-sign_json}
use vpn_pi.Registry.{
  RegistryRecord, RegistryDb, IsTable, found, signable, own_record, sign_record, fingerprint,
  verify_announce, assert_code_commits, register_announce, resolve_route, resolve,
}

module _ (p : Platform) (law : IsLawful p) (to_upper : Str → Str) (id : Identity)
    (keyed : IsKeyed p id) where
  sign_record-verify_announce :
      (wg0 label : Str) (r : RegistryRecord) (sig : Str)
      → sign_record p to_upper id wg0 label ≡ ok (r, sig)
      → verify_announce p to_upper r sig ≡ true
  unfolding sign_record verify_announce
  sign_record-verify_announce wg0 label r sig h =
      let own = own_record p to_upper id wg0 label in
      let (sig', signed, made) = >>=-eq-ok (sign_json p (signable own) id.ed_secret) _ h in
      let valid = verify_json-sign_json p law id keyed (signable own) sig' signed in
      let same : ◌≡◌ {A = RegistryRecord × Str} (own, sig') (r, sig) = ground arith in
      subst (λ x. verify_announce p to_upper x.0 x.1 ≡ true) same (rw valid refl)

  answers :
      (code' code : Str) (r : RegistryRecord)
      → fingerprint p to_upper r.ed25519 ≡ ok code'
      → code' ≡ code
      → to_upper (trim code) ≡ code
      → assert_code_commits p to_upper r code ≡ ok tt
  unfolding assert_code_commits
  answers code' code r printed one same =
      rw (printed, one, same, (str_beq_iff code code).1 refl) refl

  route-found :
      (S : Type 0) (db : RegistryDb S) (code sig : Str) (r : RegistryRecord) (s : S)
      → to_upper code ≡ code
      → db.select code s ≡ some (r, sig)
      → resolve_route p to_upper db code s ≡ found r (some sig)
  unfolding resolve_route
  route-found S db code sig r s upper there = ground arith

  -- If a node's record is announced, its code is one that upper-casing and trimming leave alone,
  -- and the signature is not empty, then resolving the code at that registry gives the record: the
  -- answer passes both checks of the client.
  pub resolve-register_announce :
      (S : Type 0) (db : RegistryDb S) (table : IsTable db) (wg0 label sig code : Str)
      (r : RegistryRecord) (now : ℕ) (s s' : S)
      → sign_record p to_upper id wg0 label ≡ ok (r, sig)
      → register_announce p to_upper db r sig now s ≡ ok (code, s')
      → to_upper (trim code) ≡ code
      → to_upper code ≡ code
      → sig ≢ []
      → resolve p to_upper (λ norm. resolve_route p to_upper db norm s') code ≡ ok r
  unfolding register_announce resolve
  resolve-register_announce S db table wg0 label sig code r now s s' signed announced same upper
        filled =
      let (valid, h1) = ensure-ok (verify_announce p to_upper r sig) registry_error _ announced in
      let (code', printed, made) = >>=-eq-ok (fingerprint p to_upper r.ed25519) _ h1 in
      let stored : ◌≡◌ {A = Str × S} (code', db.upsert code' r sig (p.iso_date now) s) (code, s') =
        ground arith in
      let there : db.select code s' ≡ some (r, sig) =
        subst (λ x. db.select x.0 x.1 ≡ some (r, sig)) stored
          (table.select-upsert code' r sig (p.iso_date now) s) in
      let commits : assert_code_commits p to_upper r code ≡ ok tt =
        answers code' code r printed (ap (λ x. x.0) stored) same in
      let some_sig : (sig == []) ≡ false = ground (arith, str_beq_iff sig []) in
      rw (same, route-found S db code sig r s' upper there, commits, some_sig, valid) refl
