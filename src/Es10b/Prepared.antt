-- ===== src/Es10b/Prepared.antt =====
-- `prepare_download` of app/es10/es10b.py: when a download is prepared.
use euicc_simulator.Prelude.{
  ◌≡◌, ◌⊎◌, refl, subst, ap, ◌∙◌, Bool, true, false, Option, List, ◌∷◌, ◌++◌, is_in, none, some, [],
  inl, inr, Bytes, bytes_eq, bytes_eq→eq, bytes_eq_refl, default, arith, Option-cases, Bool-cases,
}
use euicc_simulator.Prelude.Outcome.{Outcome, returned, raised}
use euicc_simulator.Euicc.{DownloadSession, EuiccState}
use euicc_simulator.Es10b.Engine.{SmdpSigned2, EuiccSigned2, Engine}
use euicc_simulator.Crypto.CertValidator.{CertCheck, failed, trusted, rejected}
use euicc_simulator.Es10b.Prepare.{
  download_ok, key_or, first_trusted, certificate_key, key_or_session, verified_with, accepts,
  with_otpk, derive, complete_prepare, conclude_prepare, prepare_in, prepare_download,
}
use euicc_simulator.Es10b.Sessions.{SessionIsValid}

module _ (e : Engine) where
  derive_keeps :
      (private otpk tid : Bytes) (d : DownloadSession)
      → let d' = (derive e private otpk tid d).1 in
        (d'.authenticated ≡ d.authenticated)
        × (d'.server_public_key ≡ d.server_public_key)
        × (d'.prepared ≡ d.prepared)
  unfolding derive
  derive_keeps private otpk tid d = ground arith

module _ (e : Engine) (P : Option Bytes → Type 0) where
  complete_prepare-SessionIsValid :
      (tid otpk : Bytes) (hash_cc : Option Bytes) (pair : Bytes × Bytes) (d : DownloadSession)
      (s : EuiccState)
      → SessionIsValid P (some d)
      → d.authenticated ≡ true
      → SessionIsValid P (complete_prepare e tid otpk hash_cc pair d s).1.active_session
  unfolding complete_prepare
  complete_prepare-SessionIsValid tid otpk hash_cc pair d s v auth =
      let d1 = with_otpk pair d in
      let (a, k, p) = derive_keeps e pair.0 otpk tid d1 in
      let vouched : P (derive e pair.0 otpk tid d1).1.server_public_key = rw k (v.0 auth) in
      elim (Bool-cases (derive e pair.0 otpk tid d1).0) [
        | inl done ↦ rw (SessionIsValid, done) ((λ h. vouched), (λ h. a ∙ auth))
        | inr fails ↦ rw (SessionIsValid, fails) ((λ h. vouched), (λ h. a ∙ auth))
      ]

  conclude_prepare-SessionIsValid :
      (checked : Outcome Bool) (tid otpk : Bytes) (hash_cc : Option Bytes) (pair : Bytes × Bytes)
      (d : DownloadSession) (s : EuiccState)
      → SessionIsValid P (some d)
      → SessionIsValid P s.active_session
      → d.authenticated ≡ true
      → SessionIsValid P (conclude_prepare e checked tid otpk hash_cc pair d s).1.active_session
  conclude_prepare-SessionIsValid raised tid otpk hash_cc pair d s v kept auth = kept
  conclude_prepare-SessionIsValid (returned false) tid otpk hash_cc pair d s v kept auth = kept
  conclude_prepare-SessionIsValid (returned true) tid otpk hash_cc pair d s v kept auth =
      complete_prepare-SessionIsValid tid otpk hash_cc pair d s v auth

  prepare_in-SessionIsValid :
      (signed : SmdpSigned2) (signature : Bytes) (hash_cc certificate raw : Option Bytes)
      (pair : Bytes × Bytes) (o : Option DownloadSession) (s : EuiccState)
      → o ≡ s.active_session
      → SessionIsValid P o
      → SessionIsValid P
          (prepare_in e signed signature hash_cc certificate raw pair o s).1.active_session
  unfolding prepare_in
  prepare_in-SessionIsValid signed signature hash_cc certificate raw pair none s here v =
      subst (SessionIsValid P) here v
  prepare_in-SessionIsValid signed signature hash_cc certificate raw pair (some d) s here v =
      let kept = subst (SessionIsValid P) here v in
      let tid = default signed.transaction_id [] in
      elim (Bool-cases d.authenticated) [
        | inr anonymous ↦ simp anonymous kept
        | inl auth ↦ elim (Bool-cases (bytes_eq tid d.transaction_id)) [
          | inr other ↦ simp (auth, other) kept
          | inl same ↦
              simp (auth, same)
                (conclude_prepare-SessionIsValid (accepts e signature certificate raw d) tid
                  (default signed.bpp_euicc_otpk []) hash_cc pair d s v kept auth)
        ]
      ]

  pub prepare_download-SessionIsValid :
      (signed : SmdpSigned2) (signature : Bytes) (hash_cc certificate raw : Option Bytes)
      (pair : Bytes × Bytes) (s : EuiccState)
      → SessionIsValid P s.active_session
      → SessionIsValid P
          (prepare_download e signed signature hash_cc certificate raw pair s).1.active_session
  unfolding prepare_download
  prepare_download-SessionIsValid signed signature hash_cc certificate raw pair s v =
      prepare_in-SessionIsValid signed signature hash_cc certificate raw pair s.active_session s
        refl v

module _ (e : Engine) where
  complete_prepare_success :
      (tid otpk : Bytes) (r : EuiccSigned2) (s2 tbs : Bytes) (hash_cc : Option Bytes)
      (pair : Bytes × Bytes) (d : DownloadSession) (s t : EuiccState)
      → complete_prepare e tid otpk hash_cc pair d s ≡ (returned (download_ok r s2 tbs), t)
      → (d' : DownloadSession) × (t.active_session ≡ some d') × (d'.prepared ≡ true)
  unfolding complete_prepare
  complete_prepare_success tid otpk r s2 tbs hash_cc pair d s t h =
      let d1 = (derive e pair.0 otpk tid (with_otpk pair d)).1 in
      elim (Bool-cases (derive e pair.0 otpk tid (with_otpk pair d)).0) [
        | inr fails ↦ absurd (grind arith)
        | inl done ↦ (record d1 { prepared = true }, grind arith, refl)
      ]

  conclude_prepare_success :
      (checked : Outcome Bool) (tid otpk : Bytes) (r : EuiccSigned2) (s2 tbs : Bytes)
      (hash_cc : Option Bytes) (pair : Bytes × Bytes) (d : DownloadSession) (s t : EuiccState)
      → conclude_prepare e checked tid otpk hash_cc pair d s ≡ (returned (download_ok r s2 tbs), t)
      → (checked ≡ returned true)
        × ((d' : DownloadSession) × (t.active_session ≡ some d') × (d'.prepared ≡ true))
  conclude_prepare_success raised tid otpk r s2 tbs hash_cc pair d s t h = absurd (cc)
  conclude_prepare_success (returned false) tid otpk r s2 tbs hash_cc pair d s t h = absurd (cc)
  conclude_prepare_success (returned true) tid otpk r s2 tbs hash_cc pair d s t h =
      (refl, complete_prepare_success tid otpk r s2 tbs hash_cc pair d s t h)

  -- A key of the certificate under an identifier of a list.
  abbrev Validated : Bytes → List Bytes → Bytes → Type 0
  Validated certificate ids key =
      (pkid : Bytes) × (is_in pkid ids ≡ true)
      × (e.validate_server_cert certificate pkid ≡ trusted key)

  Validated-later :
      (certificate first key : Bytes) (ids : List Bytes)
      → Validated certificate ids key
      → Validated certificate (first ∷ ids) key
  unfolding is_in
  Validated-later certificate first key ids (pkid, known, valid) =
      (pkid, ground (arith, known), valid)

  key_or-Validated :
      (certificate first key : Bytes) (ids : List Bytes) (check : CertCheck)
      (rest : Outcome (Option Bytes))
      → e.validate_server_cert certificate first ≡ check
      → (rest ≡ returned (some key) → Validated certificate ids key)
      → key_or check rest ≡ returned (some key)
      → Validated certificate (first ∷ ids) key
  unfolding is_in
  key_or-Validated certificate first key ids failed rest checks later h = absurd (cc)
  key_or-Validated certificate first key ids (trusted k) rest checks later h =
      (first, ground (arith, bytes_eq_refl first), grind arith)
  key_or-Validated certificate first key ids (rejected m) rest checks later h =
      Validated-later certificate first key ids (later h)

  first_trusted-Validated :
      (certificate key : Bytes) (ids : List Bytes)
      → first_trusted e certificate ids ≡ returned (some key)
      → Validated certificate ids key
  unfolding first_trusted
  first_trusted-Validated certificate key [] h = absurd (cc)
  first_trusted-Validated certificate key (first ∷ ids) h =
      key_or-Validated certificate first key ids (e.validate_server_cert certificate first)
        (first_trusted e certificate ids) refl (first_trusted-Validated certificate key ids) h

  -- The key under which the server's second signature is checked: that of the certificate which came
  -- with it, or the session's.
  abbrev pub SigningKey : Option Bytes → DownloadSession → Bytes → Type 0
  SigningKey certificate d key =
      ((c : Bytes) × (certificate ≡ some c) × Validated c e.trusted_ci_pkids key)
      ⊎ (d.server_public_key ≡ some key)

  -- A signature over the signed bytes and the eUICC's first signature, with its tag and length, verifies
  -- under such a key; or there are no signed bytes.
  abbrev pub SignatureIsValid : Bytes → Option Bytes → Option Bytes → DownloadSession → Type 0
  SignatureIsValid signature certificate raw d =
      (default raw [] ≡ [])
      ⊎ ((signed : Bytes) × (raw ≡ some signed)
          × (key : Bytes) × SigningKey certificate d key
          × (e.verify key signature (signed ++ ((0x5F ∷ 0x37 ∷ 0x40 ∷ []) ++ d.euicc_signature1))
              ≡ true))

  certificate_key-SigningKey :
      (certificate : Option Bytes) (d : DownloadSession) (o : Option Bytes) (key : Bytes)
      → certificate_key e certificate ≡ returned o
      → key_or_session o d ≡ some key
      → SigningKey certificate d key
  certificate_key-SigningKey certificate d none key h same = inr same
  certificate_key-SigningKey none d (some k) key h same = absurd (cc)
  certificate_key-SigningKey (some []) d (some k) key h same = absurd (cc)
  certificate_key-SigningKey (some (b ∷ bs)) d (some k) key h same =
      let there : k ≡ key = grind arith in
      inl (
        b ∷ bs,
        refl,
        first_trusted-Validated (b ∷ bs) key e.trusted_ci_pkids
            (h ∙ ap (λ x. returned (some x)) there),
      )

  verified_with-SigningKey :
      (certificate : Option Bytes) (signature tbs : Bytes) (d : DownloadSession)
      (found : Outcome (Option Bytes))
      → certificate_key e certificate ≡ found
      → verified_with e found signature tbs d ≡ returned true
      → (key : Bytes) × SigningKey certificate d key × (e.verify key signature tbs ≡ true)
  verified_with-SigningKey certificate signature tbs d raised here h = absurd (cc)
  verified_with-SigningKey certificate signature tbs d (returned o) here h =
      elim (Option-cases (key_or_session o d)) [
        | inl missing ↦ absurd (grind arith)
        | inr (key, same) ↦
            (key, certificate_key-SigningKey certificate d o key here same, grind arith)
      ]

  accepts-SignatureIsValid :
      (signature : Bytes) (certificate raw : Option Bytes) (d : DownloadSession)
      → accepts e signature certificate raw d ≡ returned true
      → SignatureIsValid signature certificate raw d
  unfolding accepts
  accepts-SignatureIsValid signature certificate none d h = inl refl
  accepts-SignatureIsValid signature certificate (some []) d h = inl refl
  accepts-SignatureIsValid signature certificate (some (b ∷ bs)) d h =
      let (key, origin, holds) =
        verified_with-SigningKey certificate signature
          ((b ∷ bs) ++ ((0x5F ∷ 0x37 ∷ 0x40 ∷ []) ++ d.euicc_signature1)) d
          (certificate_key e certificate) refl h in
      inr (b ∷ bs, refl, key, origin, holds)

  -- Where `prepare_download` returns success, the session was authenticated, the request named its
  -- transaction, and the session is then prepared. Where signed bytes were given and not empty, the
  -- signature verifies over them, the bytes 5F 37 40 and the session's first signature, under a key for
  -- which the request's certificate validates with a trusted CI identifier, or else the session's
  -- server key.
  pub prepare_download_success :
      (signed : SmdpSigned2) (r : EuiccSigned2) (signature s2 tbs : Bytes)
      (hash_cc certificate raw : Option Bytes) (pair : Bytes × Bytes) (s t : EuiccState)
      → prepare_download e signed signature hash_cc certificate raw pair s
        ≡ (returned (download_ok r s2 tbs), t)
      → (d : DownloadSession) × (s.active_session ≡ some d)
        × (d.authenticated ≡ true)
        × (default signed.transaction_id [] ≡ d.transaction_id)
        × SignatureIsValid signature certificate raw d
        × ((d' : DownloadSession) × (t.active_session ≡ some d') × (d'.prepared ≡ true))
  unfolding prepare_download prepare_in
  prepare_download_success signed r signature s2 tbs hash_cc certificate raw pair s t h =
      let tid = default signed.transaction_id [] in
      elim (Option-cases s.active_session) [
        | inl idle ↦ absurd (grind arith)
        | inr (d, here) ↦ elim (Bool-cases d.authenticated) [
          | inr anonymous ↦ absurd (grind arith)
          | inl auth ↦ elim (Bool-cases (bytes_eq tid d.transaction_id)) [
            | inr other ↦ absurd (grind arith)
            | inl same ↦
                let checked = accepts e signature certificate raw d in
                let otpk = default signed.bpp_euicc_otpk [] in
                let ran : conclude_prepare e checked tid otpk hash_cc pair d s
                    ≡ (returned (download_ok r s2 tbs), t) =
                  grind arith in
                let (good, prepared) =
                  conclude_prepare_success checked tid otpk r s2 tbs hash_cc pair d s t ran in
                (
                  d,
                  here,
                  auth,
                  bytes_eq→eq tid d.transaction_id same,
                  accepts-SignatureIsValid signature certificate raw d good,
                  prepared,
                )
          ]
        ]
      ]
