-- ===== src/Es10b/Frame.antt =====
-- `authenticate_server` and `prepare_download` of app/es10/es10b.py assign to the download session
-- and to nothing else.
use euicc_simulator.Prelude.{
  is_in, ◌≡◌, refl, Option, none, some, [], Bytes, Text, inl, inr, arith, default, Option-cases,
  Bool-cases,
}
use euicc_simulator.Euicc.{DownloadSession, EuiccState}
use euicc_simulator.Es10b.Engine.{ServerSigned1, SmdpSigned2, CtxParams, Engine}
use euicc_simulator.Es10b.Authenticate.{
  unwrapped, required, authenticated_session, respond_auth, complete_auth, check_server,
  check_certificate, authenticate_in, authenticate_server,
}
use euicc_simulator.Es10b.Prepare.{
  derive, with_otpk, complete_prepare, prepare_in, prepare_download,
}
use euicc_simulator.Es10b.Sessions.{CertCheck-cases}

-- The second state is the first with another session.
abbrev pub OnlySession : EuiccState → EuiccState → Type 0
OnlySession s t = t ≡ record s { active_session = t.active_session }

module _ (e : Engine) where
  respond_auth-OnlySession :
      (fields : Bytes × Text × Bytes) (ctx : CtxParams) (d : DownloadSession) (s : EuiccState)
      → OnlySession s (respond_auth e fields ctx d s).1
  unfolding respond_auth
  respond_auth-OnlySession fields ctx d s = ground arith

  complete_auth-OnlySession :
      (signed : ServerSigned1) (ctx : CtxParams) (key : Bytes) (d : DownloadSession)
      (s : EuiccState)
      → OnlySession s (complete_auth e signed ctx key d s).1
  unfolding complete_auth
  complete_auth-OnlySession signed ctx key d s = elim (Option-cases (required signed)) [
    | inl fails ↦ rw (complete_auth, fails) refl
    | inr (fields, all) ↦
        let d' = authenticated_session fields key d in
        rw (complete_auth, all)
          (respond_auth-OnlySession fields ctx d' (record s { active_session = some d' }))
  ]

  check_server-OnlySession :
      (signed : ServerSigned1) (signature : Bytes) (raw : Option Bytes) (ctx : CtxParams)
      (key : Bytes) (d : DownloadSession) (s : EuiccState)
      → OnlySession s (check_server e signed signature raw ctx key d s).1
  unfolding check_server
  check_server-OnlySession signed signature raw ctx key d s =
      ground (arith, complete_auth-OnlySession signed ctx key d s)

  check_certificate-OnlySession :
      (signed : ServerSigned1) (signature pkid certificate : Bytes) (ctx : CtxParams)
      (raw : Option Bytes) (d : DownloadSession) (s : EuiccState)
      → OnlySession s (check_certificate e signed signature pkid certificate ctx raw d s).1
  unfolding check_certificate
  check_certificate-OnlySession signed signature pkid certificate ctx raw d s =
      elim (Bool-cases (is_in pkid e.trusted_ci_pkids)) [
        | inr unknown ↦ rw unknown refl
        | inl known ↦ elim (CertCheck-cases (e.validate_server_cert certificate pkid)) [
          | inl fails ↦ rw (known, fails) refl
          | inr (inl (m, bad)) ↦ rw (known, bad) refl
          | inr (inr (key, good)) ↦
              rw (known, good) (check_server-OnlySession signed signature raw ctx key d s)
        ]
      ]

  authenticate_in-OnlySession :
      (signed : ServerSigned1) (signature pkid certificate : Bytes) (ctx : CtxParams)
      (raw : Option Bytes) (o : Option DownloadSession) (s : EuiccState)
      → OnlySession s (authenticate_in e signed signature pkid certificate ctx raw o s).1
  authenticate_in-OnlySession signed signature pkid certificate ctx raw none s = refl
  authenticate_in-OnlySession signed signature pkid certificate ctx raw (some d) s =
      check_certificate-OnlySession signed signature (unwrapped pkid) certificate ctx raw d s

  pub authenticate_server-OnlySession :
      (signed : ServerSigned1) (signature pkid certificate : Bytes) (ctx : CtxParams)
      (raw : Option Bytes) (s : EuiccState)
      → OnlySession s (authenticate_server e signed signature pkid certificate ctx raw s).1
  unfolding authenticate_server
  authenticate_server-OnlySession signed signature pkid certificate ctx raw s =
      authenticate_in-OnlySession signed signature pkid certificate ctx raw s.active_session s

  complete_prepare-OnlySession :
      (tid otpk : Bytes) (hash_cc : Option Bytes) (pair : Bytes × Bytes) (d : DownloadSession)
      (s : EuiccState)
      → OnlySession s (complete_prepare e tid otpk hash_cc pair d s).1
  unfolding complete_prepare
  complete_prepare-OnlySession tid otpk hash_cc pair d s =
      elim (Bool-cases (derive e pair.0 otpk tid (with_otpk pair d)).0) [
        | inl done ↦ rw (OnlySession, done) refl
        | inr fails ↦ rw (OnlySession, fails) refl
      ]

  prepare_in-OnlySession :
      (signed : SmdpSigned2) (signature : Bytes) (hash_cc certificate raw : Option Bytes)
      (pair : Bytes × Bytes) (o : Option DownloadSession) (s : EuiccState)
      → OnlySession s (prepare_in e signed signature hash_cc certificate raw pair o s).1
  unfolding prepare_in
  prepare_in-OnlySession signed signature hash_cc certificate raw pair none s = refl
  prepare_in-OnlySession signed signature hash_cc certificate raw pair (some d) s = ground (
    arith,
    complete_prepare-OnlySession (default signed.transaction_id [])
        (default signed.bpp_euicc_otpk []) hash_cc pair d s,
  )

  pub prepare_download-OnlySession :
      (signed : SmdpSigned2) (signature : Bytes) (hash_cc certificate raw : Option Bytes)
      (pair : Bytes × Bytes) (s : EuiccState)
      → OnlySession s (prepare_download e signed signature hash_cc certificate raw pair s).1
  unfolding prepare_download
  prepare_download-OnlySession signed signature hash_cc certificate raw pair s =
      prepare_in-OnlySession signed signature hash_cc certificate raw pair s.active_session s
