-- ===== src/Es10b/Authenticated.antt =====
-- `authenticate_server` of app/es10/es10b.py: what a success takes.
use euicc_simulator.Prelude.{
  is_in, ◌≡◌, refl, true, Option, none, some, [], inl, inr, Bytes, bytes_eq, bytes_eq→eq, default,
  arith, Option-cases, Bool-cases,
}
use euicc_simulator.Prelude.Outcome.{returned}
use euicc_simulator.Euicc.{DownloadSession, EuiccState}
use euicc_simulator.Crypto.CertValidator.{trusted}
use euicc_simulator.Es10b.Engine.{ServerSigned1, CtxParams, EuiccSigned1, Engine}
use euicc_simulator.Es10b.Authenticate.{
  auth_ok, unwrapped, server_tbs, check_server, check_certificate, authenticate_in,
  authenticate_server,
}
use euicc_simulator.Es10b.Sessions.{CertCheck-cases}

module _ (e : Engine) where
  check_server_success :
      (signed : ServerSigned1) (signature : Bytes) (raw : Option Bytes) (ctx : CtxParams)
      (key : Bytes) (d : DownloadSession) (s t : EuiccState) (r : EuiccSigned1)
      (der s1 c1 c2 : Bytes)
      → check_server e signed signature raw ctx key d s ≡ (returned (auth_ok r der s1 c1 c2), t)
      → (tbs : Bytes) × (server_tbs e signed raw ≡ some tbs)
        × (e.verify key signature tbs ≡ true)
        × (default signed.euicc_challenge [] ≡ d.euicc_challenge)
  unfolding check_server
  check_server_success signed signature raw ctx key d s t r der s1 c1 c2 h =
      elim (Option-cases (server_tbs e signed raw)) [
        | inl fails ↦ absurd (grind arith)
        | inr (tbs, made) ↦ elim (Bool-cases (e.verify key signature tbs)) [
          | inr bad ↦ absurd (grind arith)
          | inl holds ↦
              elim (Bool-cases (bytes_eq (default signed.euicc_challenge []) d.euicc_challenge)) [
                | inr differs ↦ absurd (grind arith)
                | inl same ↦ (
                  tbs,
                  made,
                  holds,
                  bytes_eq→eq (default signed.euicc_challenge []) d.euicc_challenge same,
                )
              ]
        ]
      ]

  authenticate_in_success :
      (signed : ServerSigned1) (signature pkid certificate : Bytes) (ctx : CtxParams)
      (raw : Option Bytes) (o : Option DownloadSession) (s t : EuiccState) (r : EuiccSigned1)
      (der s1 c1 c2 : Bytes)
      → authenticate_in e signed signature pkid certificate ctx raw o s
        ≡ (returned (auth_ok r der s1 c1 c2), t)
      → (d : DownloadSession) × (key : Bytes) × (tbs : Bytes) × (o ≡ some d)
        × (is_in (unwrapped pkid) e.trusted_ci_pkids ≡ true)
        × (e.validate_server_cert certificate (unwrapped pkid) ≡ trusted key)
        × (server_tbs e signed raw ≡ some tbs)
        × (e.verify key signature tbs ≡ true)
        × (default signed.euicc_challenge [] ≡ d.euicc_challenge)
  unfolding check_certificate
  authenticate_in_success signed signature pkid certificate ctx raw none s t r der s1 c1 c2 h =
      absurd (cc)
  authenticate_in_success signed signature pkid certificate ctx raw (some d) s t r der s1 c1 c2 h =
      let id = unwrapped pkid in
      elim (Bool-cases (is_in id e.trusted_ci_pkids)) [
        | inr unknown ↦ absurd (grind arith)
        | inl known ↦ elim (CertCheck-cases (e.validate_server_cert certificate id)) [
          | inl fails ↦ absurd (grind arith)
          | inr (inl (m, bad)) ↦ absurd (grind arith)
          | inr (inr (key, good)) ↦
              let ran : check_server e signed signature raw ctx key d s
                  ≡ (returned (auth_ok r der s1 c1 c2), t) =
                grind arith in
              let (tbs, made, holds, same) =
                check_server_success signed signature raw ctx key d s t r der s1 c1 c2 ran in
              (d, key, tbs, refl, known, good, made, holds, same)
        ]
      ]

  -- Where `authenticate_server` returns success, there was a session, the CI identifier is trusted, the
  -- certificate validates under it with a key, that key verifies the signature over the request's
  -- bytes, and the challenge that the server returns is the session's.
  pub authenticate_server_success :
      (signed : ServerSigned1) (signature pkid certificate : Bytes) (ctx : CtxParams)
      (raw : Option Bytes) (s t : EuiccState) (r : EuiccSigned1) (der s1 c1 c2 : Bytes)
      → authenticate_server e signed signature pkid certificate ctx raw s
        ≡ (returned (auth_ok r der s1 c1 c2), t)
      → (d : DownloadSession) × (key : Bytes) × (tbs : Bytes) × (s.active_session ≡ some d)
        × (is_in (unwrapped pkid) e.trusted_ci_pkids ≡ true)
        × (e.validate_server_cert certificate (unwrapped pkid) ≡ trusted key)
        × (server_tbs e signed raw ≡ some tbs)
        × (e.verify key signature tbs ≡ true)
        × (default signed.euicc_challenge [] ≡ d.euicc_challenge)
  unfolding authenticate_server
  authenticate_server_success signed signature pkid certificate ctx raw s t r der s1 c1 c2 h =
      authenticate_in_success signed signature pkid certificate ctx raw s.active_session s t r der
        s1 c1 c2 h
