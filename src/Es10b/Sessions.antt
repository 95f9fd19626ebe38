-- ===== src/Es10b/Sessions.antt =====
-- The download session of app/es10/es10b.py as a state machine: when it is authenticated and
-- prepared.
use euicc_simulator.Prelude.{
  is_in, zero, suc, ◌≡◌, ◌⊎◌, refl, sym, subst, true, Option, none, some, [], inl, inr, Bytes, Text,
  bytes_eq, default, Option-cases, Bool-cases,
}
use euicc_simulator.Euicc.{DownloadSession, EuiccState}
use euicc_simulator.Crypto.CertValidator.{failed, CertCheck, trusted, rejected}
use euicc_simulator.Es10b.Engine.{ServerSigned1, CtxParams, EuiccSigned1, Engine}
use euicc_simulator.Es10b.Info.{get_euicc_info2, get_euicc_challenge}
use euicc_simulator.Es10b.Authenticate.{
  unwrapped, server_tbs, required, authenticated_session, echo_ctx, respond_auth, complete_auth,
  check_server, check_certificate, authenticate_in, authenticate_server,
}

pub CertCheck-cases :
    (c : CertCheck)
    → (c ≡ failed) ⊎ (((m : Text) × (c ≡ rejected m)) ⊎ ((key : Bytes) × (c ≡ trusted key)))
CertCheck-cases failed = inl refl
CertCheck-cases (trusted key) = inr (inr (key, refl))
CertCheck-cases (rejected m) = inr (inl (m, refl))

-- A key that a certificate carries which validates under a trusted CI identifier, and whose holder
-- signed something.
abbrev pub Vouched : Engine → Option Bytes → Type 0
Vouched e none = zero ≡ suc zero
Vouched e (some key) =
    (certificate : Bytes) × (pkid : Bytes) × (signature : Bytes) × (tbs : Bytes) × (is_in pkid
        e.trusted_ci_pkids
      ≡ true)
    × (e.validate_server_cert certificate pkid ≡ trusted key)
    × (e.verify key signature tbs ≡ true)

-- An authenticated session holds a key with a property, and a prepared session is authenticated.
abbrev pub SessionIsValid : (Option Bytes → Type 0) → Option DownloadSession → Type 0
SessionIsValid P none = Unit {0}
SessionIsValid P (some d) =
    (d.authenticated ≡ true → P d.server_public_key) × (d.prepared ≡ true → d.authenticated ≡ true)

pub get_euicc_challenge-SessionIsValid :
    (P : Option Bytes → Type 0) (challenge : Bytes) (s : EuiccState)
    → SessionIsValid P (get_euicc_challenge challenge s).1.active_session
unfolding get_euicc_challenge
get_euicc_challenge-SessionIsValid P challenge s = ((λ h. absurd (cc)), (λ h. absurd (cc)))

module _ (e : Engine) (P : Option Bytes → Type 0)
    (vouches : (key : Bytes) → Vouched e (some key) → P (some key)) where
  respond_auth-SessionIsValid :
      (fields : Bytes × Text × Bytes) (ctx : CtxParams) (d : DownloadSession) (s : EuiccState)
      → SessionIsValid P (some d)
      → s.active_session ≡ some d
      → SessionIsValid P (respond_auth e fields ctx d s).1.active_session
  unfolding respond_auth
  respond_auth-SessionIsValid fields ctx d s v here =
      let kept : SessionIsValid P s.active_session = subst (SessionIsValid P) (sym here) v in
      elim (Option-cases (get_euicc_info2 e s)) [
        | inl fails ↦ rw (SessionIsValid, fails) kept
        | inr (info, ok) ↦
            let signed : EuiccSigned1 = record {
              transaction_id = fields.0;
              server_address = fields.1;
              server_challenge = fields.2;
              euicc_info2 = info;
              ctx_params1 = echo_ctx ctx;
            } in
            elim (Option-cases (e.encode_euicc_signed1 signed)) [
              | inl fails ↦ rw (SessionIsValid, ok, fails) kept
              | inr (tbs, made) ↦ rw (SessionIsValid, ok, made) v
            ]
      ]

  check_server-SessionIsValid :
      (signed : ServerSigned1) (signature : Bytes) (raw : Option Bytes) (ctx : CtxParams)
      (certificate pkid key : Bytes) (d : DownloadSession) (s : EuiccState)
      → SessionIsValid P (some d)
      → s.active_session ≡ some d
      → is_in pkid e.trusted_ci_pkids ≡ true
      → e.validate_server_cert certificate pkid ≡ trusted key
      → SessionIsValid P (check_server e signed signature raw ctx key d s).1.active_session
  unfolding check_server complete_auth
  check_server-SessionIsValid signed signature raw ctx certificate pkid key d s v here known good =
      let kept : SessionIsValid P s.active_session = subst (SessionIsValid P) (sym here) v in
      elim (Option-cases (server_tbs e signed raw)) [
        | inl fails ↦ rw (SessionIsValid, fails) kept
        | inr (tbs, made) ↦ elim (Bool-cases (e.verify key signature tbs)) [
          | inr bad ↦ rw (SessionIsValid, made, bad) kept
          | inl holds ↦
              elim (Bool-cases (bytes_eq (default signed.euicc_challenge []) d.euicc_challenge)) [
                | inr other ↦ rw (SessionIsValid, made, holds, other) kept
                | inl same ↦ elim (Option-cases (required signed)) [
                  | inl fails ↦ rw (SessionIsValid, made, holds, same, fails) kept
                  | inr (fields, all) ↦
                      let d' = authenticated_session fields key d in
                      let v' : SessionIsValid P (some d') = (
                        (λ h. vouches key (certificate, pkid, signature, tbs, known, good, holds)),
                        (λ h. refl),
                      ) in
                      rw (SessionIsValid, made, holds, same, all)
                        (respond_auth-SessionIsValid fields ctx d'
                          (record s { active_session = some d' }) v' refl)
                ]
              ]
        ]
      ]

  check_certificate-SessionIsValid :
      (signed : ServerSigned1) (signature pkid certificate : Bytes) (ctx : CtxParams)
      (raw : Option Bytes) (d : DownloadSession) (s : EuiccState)
      → SessionIsValid P (some d)
      → s.active_session ≡ some d
      → SessionIsValid P
          (check_certificate e signed signature pkid certificate ctx raw d s).1.active_session
  unfolding check_certificate
  check_certificate-SessionIsValid signed signature pkid certificate ctx raw d s v here =
      let kept : SessionIsValid P s.active_session = subst (SessionIsValid P) (sym here) v in
      elim (Bool-cases (is_in pkid e.trusted_ci_pkids)) [
        | inr unknown ↦ rw (SessionIsValid, unknown) kept
        | inl known ↦ elim (CertCheck-cases (e.validate_server_cert certificate pkid)) [
          | inl fails ↦ rw (SessionIsValid, known, fails) kept
          | inr (inl (m, bad)) ↦ rw (SessionIsValid, known, bad) kept
          | inr (inr (key, good)) ↦
              rw (SessionIsValid, known, good)
                (check_server-SessionIsValid signed signature raw ctx certificate pkid key d s v
                  here known good)
        ]
      ]

  authenticate_in-SessionIsValid :
      (signed : ServerSigned1) (signature pkid certificate : Bytes) (ctx : CtxParams)
      (raw : Option Bytes) (o : Option DownloadSession) (s : EuiccState)
      → SessionIsValid P o
      → s.active_session ≡ o
      → SessionIsValid P
          (authenticate_in e signed signature pkid certificate ctx raw o s).1.active_session
  authenticate_in-SessionIsValid signed signature pkid certificate ctx raw none s v here =
      subst (SessionIsValid P) (sym here) v
  authenticate_in-SessionIsValid signed signature pkid certificate ctx raw (some d) s v here =
      check_certificate-SessionIsValid signed signature (unwrapped pkid) certificate ctx raw d s v
        here

  pub authenticate_server-SessionIsValid :
      (signed : ServerSigned1) (signature pkid certificate : Bytes) (ctx : CtxParams)
      (raw : Option Bytes) (s : EuiccState)
      → SessionIsValid P s.active_session
      → SessionIsValid P
          (authenticate_server e signed signature pkid certificate ctx raw s).1.active_session
  unfolding authenticate_server
  authenticate_server-SessionIsValid signed signature pkid certificate ctx raw s v =
      authenticate_in-SessionIsValid signed signature pkid certificate ctx raw s.active_session s v
        refl
