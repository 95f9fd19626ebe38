-- ===== src/Simulator/Trust.antt =====
-- Whose profiles a simulator of app/es10 installs, over the certificates of app/crypto.
use euicc_simulator.Prelude.{
  ℕ, zero, suc, ◌≡◌, ◌∙◌, ap, sym, subst, refl, true, Option, none, some, List, [], ◌∷◌, map, Bytes,
  Text, arith, bytes_eq, bytes_eq→eq, length, take, drop, ◌==◌, Bool-cases, Option-cases, get_elem?,
  inl, inr, is_in,
}
use euicc_simulator.Prelude.Outcome.{returned}
use euicc_simulator.Euicc.{DownloadSession, EuiccState, new_euicc}
use euicc_simulator.Crypto.CertValidator.{Certificate, parsed, ski_of, ci_cert}
use euicc_simulator.Crypto.Validation.{Acceptable, validate_server_cert_iff}
use euicc_simulator.Crypto.Certificates.{CertificateInfrastructure}
use euicc_simulator.Crypto.Initialize.{get_trusted_ci_certs, get_trusted_ci_pkids, TrustedFile}
use euicc_simulator.Crypto.EcdsaEngine.{Ecc, from_bytes, verify}
use euicc_simulator.Es10b.Engine.{ResultData, Engine}
use euicc_simulator.Es10b.Load.{Bpp, installed, load_bound_profile_package}
use euicc_simulator.Es10b.Handler.{Libraries, Moment, ci_certs, es10b_handler}
use euicc_simulator.Es10b.Sessions.{Vouched, SessionIsValid}
use euicc_simulator.Es10b.Installs.{load_bound_profile_package_installs}
use euicc_simulator.Simulator.{Command, perform}
use euicc_simulator.Simulator.Authenticity.{perform-SessionIsValid}
use euicc_simulator.Simulator.Reachability.{SessionIsValid-prepared}

-- A signature of 64 bytes whose halves are the numbers of a DER signature under the key.
abbrev pub Signed : Ecc → Bytes → Bytes → Bytes → Type 0
Signed ecc key signature tbs =
    (length signature ≡ 64)
    × (ecc.ecdsa_verify key
          (ecc.encode_dss_signature
            (from_bytes 0 (take 32 signature), from_bytes 0 (drop 32 signature)))
          tbs
        ≡ true)

verify-Signed :
    (ecc : Ecc) (key signature tbs : Bytes)
    → verify ecc key signature tbs ≡ true
    → Signed ecc key signature tbs
unfolding verify
verify-Signed ecc key signature tbs h = elim (Bool-cases (length signature == 64)) [
  | inl whole ↦ ground (arith, whole, h)
  | inr other ↦ absurd (grind arith)
]

-- The certificate that the dictionary gives is in the list, under the identifier.
ci_cert-map :
    {A : Type 0} (f : A → Certificate) (pkid : Bytes) (cs : List A) (ci : Certificate)
    → ci_cert pkid (map f cs) ≡ some ci
    → (i : ℕ) × (c : A) × (get_elem? cs i ≡ some c) × (f c ≡ ci) × (ski_of ci ≡ pkid)
unfolding ci_cert
ci_cert-map f pkid [] ci h = absurd (cc)
ci_cert-map f pkid (c ∷ cs) ci h = elim (Option-cases (ci_cert pkid (map f cs))) [
  | inr (later, found) ↦
      let same : later ≡ ci = grind arith in
      let (i, c', at, reads, named) = ci_cert-map f pkid cs later found in
      (suc i, c', at, reads ∙ same, ap ski_of (sym same) ∙ named)
  | inl last ↦ elim (Bool-cases (bytes_eq (ski_of (f c)) pkid)) [
    | inr other ↦ absurd (grind arith)
    | inl named ↦
        let same : f c ≡ ci = grind arith in
        (zero, c, refl, same, ap ski_of (sym same) ∙ bytes_eq→eq (ski_of (f c)) pkid named)
  ]
]

-- The states that calls lead to when what the handlers call changes from moment to moment.
pub data ReachableOver {M : Type 0} (e : M → Engine) (eid : Text) : EuiccState → Type 0 where
  created : ReachableOver e eid (new_euicc eid)
  called :
      (m : M) (c : Command) (s : EuiccState)
      → ReachableOver e eid s
      → ReachableOver e eid (perform (e m) c s)

ReachableOver-SessionIsValid :
    {M : Type 0} (e : M → Engine) (P : Option Bytes → Type 0)
    → ((m : M) (key : Bytes) → Vouched (e m) (some key) → P (some key))
    → (eid : Text) (s : EuiccState) → ReachableOver e eid s
    → SessionIsValid P s.active_session
unfolding new_euicc
ReachableOver-SessionIsValid e P vouches eid _ created = tt
ReachableOver-SessionIsValid e P vouches eid _ (called m c s r) =
    perform-SessionIsValid (e m) P (vouches m) c s
      (ReachableOver-SessionIsValid e P vouches eid s r)

module _ {V : Type 0} (l : Libraries V) where
  -- A key of a certificate that the validator accepted at some moment under a certificate that the
  -- eUICC trusts, its own CI's or one of the trust directory, whose identifier it listed at that
  -- moment, and whose holder signed something.
  abbrev pub Trusted :
      CertificateInfrastructure l.certs.Certificate
      → List (TrustedFile l.certs)
      → Option Bytes
      → Type 0
  Trusted pki at_start none = zero ≡ suc zero
  Trusted pki at_start (some key) =
      (m : Moment l) × (der : Bytes) × (server : Certificate) × (i : ℕ) × (ci : l.certs.Certificate)
      × (l.x509.load_der der ≡ parsed server)
      × (get_elem? (get_trusted_ci_certs l.certs pki at_start) i ≡ some ci)
      × (is_in (ski_of (l.read ci)) (get_trusted_ci_pkids l.certs pki m.files) ≡ true)
      × Acceptable l.x509 m.now (l.read ci) server key
      × ((signature : Bytes) × (tbs : Bytes) × Signed l.ecc key signature tbs)

  module _ (pki : CertificateInfrastructure l.certs.Certificate)
      (at_start : List (TrustedFile l.certs)) where
    Vouched-Trusted :
        (m : Moment l) (key : Bytes)
        → Vouched (es10b_handler l pki at_start m) (some key)
        → Trusted pki at_start (some key)
    unfolding es10b_handler
    Vouched-Trusted m key (der, pkid, signature, tbs, known, valid, verified) =
        let (server, ci, loads, found, good) =
          (validate_server_cert_iff l.x509 (ci_certs l pki at_start) m.now der pkid key).0 valid in
        let (i, c, at, reads, named) =
          ci_cert-map l.read pkid (get_trusted_ci_certs l.certs pki at_start) ci found in
        let ids = get_trusted_ci_pkids l.certs pki m.files in
        (
          m,
          der,
          server,
          i,
          c,
          loads,
          at,
          subst (λ id. is_in id ids ≡ true) (sym (ap ski_of reads ∙ named)) known,
          subst (λ x. Acceptable l.x509 m.now x server key) (sym reads) good,
          (signature, tbs, verify-Signed l.ecc key signature tbs verified),
        )

    -- On the eUICC of a PKI, whatever the clock and the trust directory show at each call, a profile
    -- is installed in a state that calls lead to only in a prepared session with a server key of this
    -- origin: at some moment a certificate with that key was in its dates and signed by itself or by
    -- a CI that the validator trusted from its start, the PKI's own or one of the trust directory,
    -- whose identifier was listed then, and a signature of 64 bytes was verified under the key.
    pub load_bound_profile_package-Trusted :
        (eid : Text) (m : Moment l) (s t : EuiccState) (bpp : Bpp) (random : Bytes) (r : ResultData)
        (signature : Bytes)
        → ReachableOver (es10b_handler l pki at_start) eid s
        → load_bound_profile_package (es10b_handler l pki at_start m) bpp random s
          ≡ (returned (installed r signature), t)
        → (d : DownloadSession) × (s.active_session ≡ some d)
          × (d.prepared ≡ true)
          × Trusted pki at_start d.server_public_key
    load_bound_profile_package-Trusted eid m s t bpp random r signature reached h =
        let e = es10b_handler l pki at_start in
        let ((d, here, ready), _) =
          load_bound_profile_package_installs (e m) bpp random s t r signature h in
        let valid =
          ReachableOver-SessionIsValid e (Trusted pki at_start) Vouched-Trusted eid s reached in
        (
          d,
          here,
          ready,
          SessionIsValid-prepared (Trusted pki at_start) s.active_session d valid here ready,
        )
