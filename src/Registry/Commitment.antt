-- ===== src/Registry/Commitment.antt =====
-- What a client checks in a reply of the registry (resolve of core/registry.ts).
use vpn_pi.Common.{
  ◌≡◌, refl, ap, ◌∙◌, subst, true, not, none, some, [], Str, str_eq, str_beq, str_beq_iff, ◌==◌,
  trim, arith, inl, inr,
}
use vpn_pi.Errors.{registry_error}
use vpn_pi.Errors.Result.{ok, Result-cases, ensure-ok}
use vpn_pi.Platform.{Platform}
use vpn_pi.Registry.{
  RegistryRecord, Reply, code_not_found, failed, found, fingerprint, verify_announce,
  assert_code_commits, resolve, checked,
}

module _ (p : Platform) (to_upper : Str → Str) where
  checked-commits :
      (reply : Reply) (norm : Str) (r : RegistryRecord)
      → checked p to_upper reply norm ≡ ok r
      → (fingerprint p to_upper r.ed25519 ≡ ok (to_upper (trim norm)))
        × ((sig : Str) × (reply ≡ found r (some sig)) × (verify_announce p to_upper r sig ≡ true))
  unfolding assert_code_commits str_beq
  checked-commits code_not_found norm r h = absurd (cc)
  checked-commits (failed status) norm r h = absurd (cc)
  checked-commits (found q none) norm r h = elim (Result-cases (fingerprint p to_upper q.ed25519)) [
    | inl (print, e) ↦
        let (match, k) = ensure-ok (print == to_upper (trim norm)) registry_error _ (rw e at h) in
        absurd (ground (arith, k))
    | inr (fault, e) ↦ absurd (ground (arith, rw e at h))
  ]
  checked-commits (found q (some sig)) norm r h =
      elim (Result-cases (fingerprint p to_upper q.ed25519)) [
        | inl (print, e) ↦
            let (match, k) =
              ensure-ok (print == to_upper (trim norm)) registry_error _ (rw e at h) in
            let (there, k') = ensure-ok (not (sig == [])) registry_error _ k in
            let (valid, k'') = ensure-ok (verify_announce p to_upper q sig) registry_error _ k' in
            let same : q ≡ r = ground arith in
            subst
              (λ x.
                (fingerprint p to_upper x.ed25519 ≡ ok (to_upper (trim norm)))
                × ((sig' : Str) × (found q (some sig) ≡ found x (some sig'))
                    × (verify_announce p to_upper x sig' ≡ true)))
              same
              (e ∙ ap ok ((str_beq_iff print (to_upper (trim norm))).0 match), (sig, refl, valid))
        | inr (fault, e) ↦ absurd (ground (arith, rw e at h))
      ]

  -- A record that a lookup returns is the one that the registry answered, its key hashes to the code
  -- that was looked up, and it came with a signature of all its fields by that key: a registry
  -- can neither substitute a key nor change an address or a sealing key.
  pub resolve-commits :
      (fetch : Str → Reply) (code : Str) (r : RegistryRecord)
      → resolve p to_upper fetch code ≡ ok r
      → (fingerprint p to_upper r.ed25519 ≡ ok (to_upper (trim (to_upper (trim code)))))
        × ((sig : Str) × (fetch (to_upper (trim code)) ≡ found r (some sig))
            × (verify_announce p to_upper r sig ≡ true))
  unfolding resolve
  resolve-commits fetch code r h =
      checked-commits (fetch (to_upper (trim code))) (to_upper (trim code)) r h
