-- ===== src/Es10b/Responds.antt =====
-- `authenticate_server` of app/es10/es10b.py: what a success answers, and that a server can verify it
-- with app/crypto/ecdsa_engine.py.
use euicc_simulator.Prelude.{
  is_in, ◌≡◌, ◌∙◌, refl, sym, subst, ap, List, ◌^◌, ◌<◌, true, Option, none, some, [], inl, inr,
  Bytes, bytes_eq, default, length, Option-cases, Bool-cases,
}
use euicc_simulator.Prelude.Outcome.{Outcome, returned, raised}
use euicc_simulator.Euicc.{DownloadSession, EuiccState}
use euicc_simulator.Crypto.Certificates.{CertificateInfrastructure}
use euicc_simulator.Crypto.Chain.{Issued}
use euicc_simulator.Crypto.EcdsaEngine.{Ecc, sign, verify}
use euicc_simulator.Crypto.Initialize.{TrustedFile}
use euicc_simulator.Crypto.Signatures.{verify-sign}
use euicc_simulator.Es10b.Engine.{ServerSigned1, CtxParams, EuiccSigned1, Engine}
use euicc_simulator.Es10b.Info.{get_euicc_info2}
use euicc_simulator.Services.Asn1Codec.{encode_euicc_signed1}
use euicc_simulator.Es10b.Authenticate.{
  AuthResult, auth_error, auth_ok, unwrapped, server_tbs, required, authenticated_session, echo_ctx,
  respond_auth, complete_auth, check_server, check_certificate, authenticate_in,
  authenticate_server,
}
use euicc_simulator.Es10b.Handler.{
  Libraries, Moment, get_euicc_cert_der, get_eum_cert_der, es10b_handler,
}
use euicc_simulator.Es10b.Sessions.{CertCheck-cases}

module _ (e : Engine) (signed : ServerSigned1) (ctx : CtxParams) where
  -- Of a success: the response repeats what the server sent, its encoding is signed with the eUICC's
  -- key, the certificates are the PKI's, and the session keeps the signature.
  abbrev pub Answered : Outcome AuthResult × EuiccState → Type 0
  Answered (raised, t) = Unit {0}
  Answered (returned (auth_error tid code), t) = Unit {0}
  Answered (returned (auth_ok r der signature euicc eum), t) =
      (required signed ≡ some (r.transaction_id, r.server_address, r.server_challenge))
      × (r.ctx_params1 ≡ echo_ctx ctx)
      × (e.encode_euicc_signed1 r ≡ some der)
      × (signature ≡ e.sign e.private_key der)
      × ((euicc ≡ e.euicc_certificate) × (eum ≡ e.eum_certificate))
      × ((d : DownloadSession) × (t.active_session ≡ some d) × (d.euicc_signature1 ≡ signature))

  respond_auth-Answered :
      (fields : Bytes × Bytes × Bytes) (d : DownloadSession) (s : EuiccState)
      → required signed ≡ some fields
      → Answered (respond_auth e fields ctx d s)
  unfolding respond_auth
  respond_auth-Answered fields d s read = elim (Option-cases (get_euicc_info2 e s)) [
    | inl fails ↦ rw (Answered, fails) tt
    | inr (info, ok) ↦
        let r : EuiccSigned1 = record {
          transaction_id = fields.0;
          server_address = fields.1;
          server_challenge = fields.2;
          euicc_info2 = info;
          ctx_params1 = echo_ctx ctx;
        } in
        elim (Option-cases (e.encode_euicc_signed1 r)) [
          | inl fails ↦ rw (Answered, ok, fails) tt
          | inr (der, made) ↦
              let signature = e.sign e.private_key der in
              let d' : DownloadSession = record d { euicc_signature1 = signature } in
              let ran : respond_auth e fields ctx d s ≡ (
                returned (auth_ok r der signature e.euicc_certificate e.eum_certificate),
                record s { active_session = some d' },
              ) =
                rw (respond_auth, ok, made) refl in
              subst Answered (sym ran) (read, refl, made, refl, (refl, refl), (d', refl, refl))
        ]
  ]

  check_server-Answered :
      (signature key : Bytes) (raw : Option Bytes) (d : DownloadSession) (s : EuiccState)
      → Answered (check_server e signed signature raw ctx key d s)
  unfolding check_server complete_auth
  check_server-Answered signature key raw d s = elim (Option-cases (server_tbs e signed raw)) [
    | inl fails ↦ rw (Answered, fails) tt
    | inr (tbs, made) ↦ elim (Bool-cases (e.verify key signature tbs)) [
      | inr bad ↦ rw (Answered, made, bad) tt
      | inl holds ↦
          elim (Bool-cases (bytes_eq (default signed.euicc_challenge []) d.euicc_challenge)) [
            | inr other ↦ rw (Answered, made, holds, other) tt
            | inl same ↦ elim (Option-cases (required signed)) [
              | inl fails ↦ rw (Answered, made, holds, same, fails) tt
              | inr (fields, all) ↦
                  let d' = authenticated_session fields key d in
                  let s' = record s { active_session = some d' } in
                  let ran : check_server e signed signature raw ctx key d s
                      ≡ respond_auth e fields ctx d' s' =
                    rw (check_server, complete_auth, made, holds, same, all) refl in
                  subst Answered (sym ran) (respond_auth-Answered fields d' s' all)
            ]
          ]
    ]
  ]

  authenticate_in-Answered :
      (signature pkid certificate : Bytes) (raw : Option Bytes) (o : Option DownloadSession)
      (s : EuiccState)
      → Answered (authenticate_in e signed signature pkid certificate ctx raw o s)
  unfolding check_certificate
  authenticate_in-Answered signature pkid certificate raw none s = tt
  authenticate_in-Answered signature pkid certificate raw (some d) s =
      let id = unwrapped pkid in
      elim (Bool-cases (is_in id e.trusted_ci_pkids)) [
        | inr unknown ↦ rw (Answered, unknown) tt
        | inl known ↦ elim (CertCheck-cases (e.validate_server_cert certificate id)) [
          | inl fails ↦ rw (Answered, known, fails) tt
          | inr (inl (m, bad)) ↦ rw (Answered, known, bad) tt
          | inr (inr (key, good)) ↦
              let ran : check_certificate e signed signature id certificate ctx raw d s
                  ≡ check_server e signed signature raw ctx key d s =
                rw (check_certificate, known, good) refl in
              subst Answered (sym ran) (check_server-Answered signature key raw d s)
        ]
      ]

  pub authenticate_server-Answered :
      (signature pkid certificate : Bytes) (raw : Option Bytes) (s : EuiccState)
      → Answered (authenticate_server e signed signature pkid certificate ctx raw s)
  unfolding authenticate_server
  authenticate_server-Answered signature pkid certificate raw s =
      authenticate_in-Answered signature pkid certificate raw s.active_session s

-- What the code relies on of the library's signatures: their numbers fit in 32 bytes and give the
-- DER signature back, and the public key of a private key verifies what it signs.
pub record EccLaws (ecc : Ecc) (public_key : Bytes → Bytes) : Type 0 where
  pub fits :
      (key tbs : Bytes)
      → let (r, s) = ecc.decode_dss_signature (ecc.ecdsa_sign key tbs) in
        (r < 256 ^ 32) × (s < 256 ^ 32)
  pub encode-decode :
      (key tbs : Bytes)
      → ecc.encode_dss_signature (ecc.decode_dss_signature (ecc.ecdsa_sign key tbs))
        ≡ ecc.ecdsa_sign key tbs
  pub verify-sign_own :
      (key tbs : Bytes) → ecc.ecdsa_verify (public_key key) (ecc.ecdsa_sign key tbs) tbs ≡ true

-- A signature of the handler is of 64 bytes and verifies under the public key.
sign_verifies :
    (ecc : Ecc) (public_key : Bytes → Bytes)
    → EccLaws ecc public_key
    → (key tbs : Bytes)
    → (length (default (sign ecc key tbs) []) ≡ 64)
      × (verify ecc (public_key key) (default (sign ecc key tbs) []) tbs ≡ true)
sign_verifies ecc public_key laws key tbs =
    let (hr, hs) = laws.fits key tbs in
    let (signature, made, size, same) = verify-sign ecc key (public_key key) tbs hr hs in
    let holds : verify ecc (public_key key) signature tbs ≡ true =
      same
      ∙ ap (λ der. ecc.ecdsa_verify (public_key key) der tbs) (laws.encode-decode key tbs)
      ∙ laws.verify-sign_own key tbs in
    let given : default (sign ecc key tbs) [] ≡ signature = rw made refl in rw given (size, holds)

-- With the library's signatures as they should be, and an eUICC certificate that is issued for the
-- eUICC's key, a success of `authenticate_server` answers with the server's own identifier, address
-- and challenge, in an encoding whose signature, of 64 bytes, verifies under the public key of the
-- eUICC's certificate, which is sent with it; the session keeps that signature.
pub authenticate_server_verifiable :
    {V : Type 0} (l : Libraries V)
    → EccLaws l.ecc l.certs.public_key
    → (pki : CertificateInfrastructure l.certs.Certificate) (at_start : List (TrustedFile l.certs))
      (m : Moment l)
    → Issued l.certs pki.eum pki.euicc
    → (signed : ServerSigned1) (signature pkid certificate : Bytes) (ctx : CtxParams)
      (raw : Option Bytes) (s t : EuiccState) (r : EuiccSigned1) (der s1 c1 c2 : Bytes)
    → authenticate_server
        (es10b_handler l pki at_start m)
        signed
        signature
        pkid
        certificate
        ctx
        raw
        s
      ≡ (returned (auth_ok r der s1 c1 c2), t)
    → (required signed ≡ some (r.transaction_id, r.server_address, r.server_challenge))
      × (encode_euicc_signed1 l.schema (l.dictionaries.euicc_signed1 r) ≡ some der)
      × (length s1 ≡ 64)
      × (verify l.ecc (l.certs.fields pki.euicc.certificate).public_key s1 der ≡ true)
      × (c1 ≡ get_euicc_cert_der l pki)
      × (c2 ≡ get_eum_cert_der l pki)
      × ((d : DownloadSession) × (t.active_session ≡ some d) × (d.euicc_signature1 ≡ s1))
unfolding es10b_handler
authenticate_server_verifiable l laws pki at_start m issued signed signature pkid certificate ctx
      raw s t r der s1 c1 c2 h =
    let e = es10b_handler l pki at_start m in
    let answered = authenticate_server-Answered e signed ctx signature pkid certificate raw s in
    let (read, echoed, encoded, signs, (own, eum), kept) =
      subst (Answered e signed ctx) h answered in
    let (size, holds) = sign_verifies l.ecc l.certs.public_key laws pki.euicc.private_key der in
    (read, encoded, ap length signs ∙ size, rw (signs, issued.own_key) holds, own, eum, kept)
