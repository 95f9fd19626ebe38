-- ===== src/Es10b/Authenticate.antt =====
-- `authenticate_server` of app/es10/es10b.py. The session that the method changes is the one in the
-- state, and what was assigned stays when an encoder raises.
use euicc_simulator.Prelude.{
  is_in, ◌>>=◌, ℕ, ◌+◌, Bool, true, not, ◌&&◌, ◌||◌, Option, none, some, [], ◌∷◌, Bytes, Text,
  codes, bytes_eq, truthy, default, starts_with, fromhex, leb, ◌==◌, if◌then◌else◌, length, drop,
  replicate,
}
use euicc_simulator.Prelude.Outcome.{Outcome, returned, raised}
use euicc_simulator.Euicc.{DownloadSession, EuiccState}
use euicc_simulator.Crypto.CertValidator.{failed, trusted, rejected}
use euicc_simulator.Es10b.Engine.{
  ServerSigned1, Tac, octets, digits, no_tac, CtxValue, with_device, without_device, no_dict,
  CtxParams, choice, keyed, other, EuiccSigned1, Engine,
}
use euicc_simulator.Es10b.Info.{get_euicc_info2}

pub data AuthResult : Type 0 where
  auth_error : Bytes → ℕ → AuthResult
  -- euiccSigned1, its encoding, its signature, and the two certificates.
  auth_ok : EuiccSigned1 → Bytes → Bytes → Bytes → Bytes → AuthResult

-- The identifier without the wrapper of an OCTET STRING of twenty bytes.
abbrev pub unwrapped : Bytes → Bytes
unwrapped pkid =
    if length pkid == 22 && starts_with pkid (0x04 ∷ 0x14 ∷ []) then drop 2 pkid else pkid

-- `s.lower()`, on ASCII letters.
unfoldable pub lower : Text → Text
lower [] = []
lower (c ∷ cs) = (if leb b'A' c && leb c b'Z' then c + 32 else c) ∷ lower cs

-- `part in s`.
unfoldable pub contains : Text → Text → Bool
contains part [] = starts_with [] part
contains part (c ∷ cs) = starts_with (c ∷ cs) part || contains part cs

abbrev pub error_code : Text → ℕ
error_code message = if contains (codes "expired") (lower message) then 4 else 6

-- `raw or encode(…)`.
abbrev pub server_tbs : Engine → ServerSigned1 → Option Bytes → Option Bytes
server_tbs e signed none = e.encode_server_signed1 signed
server_tbs e signed (some raw) = if truthy raw then some raw else e.encode_server_signed1 signed

abbrev pub tac_octets : Tac → Tac
tac_octets (octets b) = octets b
tac_octets (digits t) = octets (default (fromhex t) (0 ∷ 0 ∷ 0 ∷ 0 ∷ []))
tac_octets no_tac = no_tac

abbrev pub converted : CtxValue → CtxValue
converted (with_device rest tac) = with_device rest (tac_octets tac)
converted (without_device rest) = without_device rest
converted (no_dict v) = no_dict v

abbrev pub echo_ctx : CtxParams → Text × CtxValue
echo_ctx (choice alternative v) = (alternative, converted v)
echo_ctx (keyed v) = (codes "ctxParamsForCommonAuthentication", converted v)
echo_ctx other =
    (codes "ctxParamsForCommonAuthentication", with_device [] (octets (0 ∷ 0 ∷ 0 ∷ 0 ∷ [])))

-- The three keys that are read without a default.
abbrev pub required : ServerSigned1 → Option (Bytes × Text × Bytes)
required signed = do
  transaction_id ← signed.transaction_id
  server_address ← signed.server_address
  server_challenge ← signed.server_challenge
  some (transaction_id, server_address, server_challenge)

abbrev pub authenticated_session : Bytes × Text × Bytes → Bytes → DownloadSession → DownloadSession
authenticated_session (transaction_id, server_address, server_challenge) key session =
    record session {
      transaction_id = transaction_id;
      server_address = server_address;
      server_challenge = some server_challenge;
      server_public_key = some key;
      authenticated = true;
    }

-- The response, from the state with the authenticated session.
unfoldable pub respond_auth :
    Engine
    → Bytes × Text × Bytes
    → CtxParams
    → DownloadSession
    → EuiccState
    → Outcome AuthResult × EuiccState
respond_auth e (transaction_id, server_address, server_challenge) ctx session s =
    elim (get_euicc_info2 e s) [
      | none ↦ (raised, s)
      | some info ↦
          let signed : EuiccSigned1 = record {
            transaction_id = transaction_id;
            server_address = server_address;
            server_challenge = server_challenge;
            euicc_info2 = info;
            ctx_params1 = echo_ctx ctx;
          } in
          elim (e.encode_euicc_signed1 signed) [
            | none ↦ (raised, s)
            | some tbs ↦
                let signature = e.sign e.private_key tbs in
                (
                  returned (auth_ok signed tbs signature e.euicc_certificate e.eum_certificate),
                  record s {
                    active_session = some (record session { euicc_signature1 = signature });
                  },
                )
          ]
    ]

-- Steps 5 and 6, once the server is verified.
unfoldable pub complete_auth :
    Engine
    → ServerSigned1
    → CtxParams
    → Bytes
    → DownloadSession
    → EuiccState
    → Outcome AuthResult × EuiccState
complete_auth e signed ctx key session s = elim (required signed) [
  | none ↦ (raised, s)
  | some fields ↦
      let session' = authenticated_session fields key session in
      respond_auth e fields ctx session' (record s { active_session = some session' })
]

-- Steps 3 and 4: the signature, then the challenge.
unfoldable pub check_server :
    Engine
    → ServerSigned1
    → Bytes
    → Option Bytes
    → CtxParams
    → Bytes
    → DownloadSession
    → EuiccState
    → Outcome AuthResult × EuiccState
check_server e signed signature raw ctx key session s =
    let transaction_id = default signed.transaction_id (replicate 16 0) in
    elim (server_tbs e signed raw) [
      | none ↦ (raised, s)
      | some tbs ↦
          if not (e.verify key signature tbs)
          then (returned (auth_error transaction_id 2), s)
          else if not (bytes_eq (default signed.euicc_challenge []) session.euicc_challenge)
          then (returned (auth_error transaction_id 2), s)
          else complete_auth e signed ctx key session s
    ]

-- Steps 1 and 2, in an active session: the CI identifier, then the certificate.
unfoldable pub check_certificate :
    Engine
    → ServerSigned1
    → Bytes
    → Bytes
    → Bytes
    → CtxParams
    → Option Bytes
    → DownloadSession
    → EuiccState
    → Outcome AuthResult × EuiccState
check_certificate e signed signature pkid certificate ctx raw session s =
    let transaction_id = default signed.transaction_id (replicate 16 0) in
    if not (is_in pkid e.trusted_ci_pkids)
    then (returned (auth_error transaction_id 3), s)
    else elim (e.validate_server_cert certificate pkid) [
      | failed ↦ (raised, s)
      | rejected message ↦ (returned (auth_error transaction_id (error_code message)), s)
      | trusted key ↦ check_server e signed signature raw ctx key session s
    ]

-- On the state's session.
abbrev pub authenticate_in :
    Engine
    → ServerSigned1
    → Bytes
    → Bytes
    → Bytes
    → CtxParams
    → Option Bytes
    → Option DownloadSession
    → EuiccState
    → Outcome AuthResult × EuiccState
authenticate_in e signed signature pkid certificate ctx raw none s =
    (returned (auth_error (replicate 16 0) 8), s)
authenticate_in e signed signature pkid certificate ctx raw (some session) s =
    check_certificate e signed signature (unwrapped pkid) certificate ctx raw session s

unfoldable pub authenticate_server :
    Engine
    → ServerSigned1
    → Bytes
    → Bytes
    → Bytes
    → CtxParams
    → Option Bytes
    → EuiccState
    → Outcome AuthResult × EuiccState
authenticate_server e signed signature pkid certificate ctx raw s =
    authenticate_in e signed signature pkid certificate ctx raw s.active_session s
