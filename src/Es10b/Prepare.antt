-- ===== src/Es10b/Prepare.antt =====
-- `prepare_download` of app/es10/es10b.py.
use euicc_simulator.Prelude.{
  ℕ, Bool, true, false, not, Option, none, some, List, [], ◌∷◌, ◌++◌, Bytes, bytes_eq, truthy,
  default, if◌then◌else◌, replicate,
}
use euicc_simulator.Prelude.Outcome.{Outcome, returned, raised}
use euicc_simulator.Euicc.{DownloadSession, EuiccState}
use euicc_simulator.Crypto.CertValidator.{CertCheck, failed, trusted, rejected}
use euicc_simulator.Es10b.Engine.{SmdpSigned2, EuiccSigned2, Engine}

pub data DownloadResult : Type 0 where
  download_error : Bytes → ℕ → DownloadResult
  -- euiccSigned2, its signature, its encoding.
  download_ok : EuiccSigned2 → Bytes → Bytes → DownloadResult

abbrev pub key_or : CertCheck → Outcome (Option Bytes) → Outcome (Option Bytes)
key_or failed rest = raised
key_or (trusted key) rest = returned (some key)
key_or (rejected message) rest = rest

-- The loop over the trusted identifiers: the key of the first that the certificate passes under. An
-- exception of the validator ends it.
unfoldable pub first_trusted : Engine → Bytes → List Bytes → Outcome (Option Bytes)
first_trusted e certificate [] = returned none
first_trusted e certificate (ci_pkid ∷ rest) =
    key_or (e.validate_server_cert certificate ci_pkid) (first_trusted e certificate rest)

abbrev pub certificate_key : Engine → Option Bytes → Outcome (Option Bytes)
certificate_key e none = returned none
certificate_key e (some certificate) =
    if truthy certificate then first_trusted e certificate e.trusted_ci_pkids else returned none

abbrev pub key_or_session : Option Bytes → DownloadSession → Option Bytes
key_or_session (some key) session = some key
key_or_session none session = session.server_public_key

abbrev pub verified_by : Engine → Option Bytes → Bytes → Bytes → Bool
verified_by e none signature tbs = false
verified_by e (some key) signature tbs = e.verify key signature tbs

abbrev pub verified_with :
    Engine → Outcome (Option Bytes) → Bytes → Bytes → DownloadSession → Outcome Bool
verified_with e raised signature tbs session = raised
verified_with e (returned key) signature tbs session =
    returned (verified_by e (key_or_session key session) signature tbs)

-- Whether the signature is accepted: without the raw bytes it is not looked at.
unfoldable pub accepts :
    Engine → Bytes → Option Bytes → Option Bytes → DownloadSession → Outcome Bool
accepts e signature certificate none session = returned true
accepts e signature certificate (some raw) session =
    if truthy raw
    then verified_with e (certificate_key e certificate) signature
        (raw ++ ((0x5F ∷ 0x37 ∷ 0x40 ∷ []) ++ session.euicc_signature1)) session
    else returned true

-- The new key pair in the session, its private part first.
abbrev pub with_otpk : Bytes × Bytes → DownloadSession → DownloadSession
with_otpk (private, public) session = record session {
  euicc_otpk_private = some private;
  euicc_otpk_public = public;
}

-- The session with the SM-DP+ key and the session keys. An exception of the derivation leaves the
-- SM-DP+ key.
unfoldable pub derive : Engine → Bytes → Bytes → Bytes → DownloadSession → Bool × DownloadSession
derive e private smdp_otpk transaction_id session =
    if truthy smdp_otpk
    then elim (e.derive_session_keys private smdp_otpk transaction_id) [
      | none ↦ (false, record session { smdp_otpk_public = smdp_otpk })
      | some keys ↦
          (true, record session { smdp_otpk_public = smdp_otpk; session_keys = some keys })
    ]
    else (true, session)

abbrev pub given_hash : Option Bytes → Option Bytes
given_hash none = none
given_hash (some hash_cc) = if truthy hash_cc then some hash_cc else none

abbrev pub signed_download : Engine → EuiccSigned2 → Option Bytes → Outcome DownloadResult
signed_download e signed none = raised
signed_download e signed (some tbs) = returned (download_ok signed (e.sign e.private_key tbs) tbs)

-- From the key pair on.
unfoldable pub complete_prepare :
    Engine
    → Bytes
    → Bytes
    → Option Bytes
    → Bytes × Bytes
    → DownloadSession
    → EuiccState
    → Outcome DownloadResult × EuiccState
complete_prepare e transaction_id smdp_otpk hash_cc otpk session s =
    let (derived, session') = derive e otpk.0 smdp_otpk transaction_id (with_otpk otpk session) in
    let signed : EuiccSigned2 = record {
      transaction_id = transaction_id;
      euicc_otpk = otpk.1;
      hash_cc = given_hash hash_cc;
    } in
    if not derived then (raised, record s { active_session = some session' }) else (
      signed_download e signed (e.encode_euicc_signed2 signed),
      record s { active_session = some (record session' { prepared = true }) },
    )

-- What follows the check of the signature.
abbrev pub conclude_prepare :
    Engine
    → Outcome Bool
    → Bytes
    → Bytes
    → Option Bytes
    → Bytes × Bytes
    → DownloadSession
    → EuiccState
    → Outcome DownloadResult × EuiccState
conclude_prepare e raised transaction_id smdp_otpk hash_cc otpk session s = (raised, s)
conclude_prepare e (returned verified) transaction_id smdp_otpk hash_cc otpk session s =
    if not verified
    then (returned (download_error transaction_id 2), s)
    else complete_prepare e transaction_id smdp_otpk hash_cc otpk session s

-- On the state's session. The one-time key pair is an argument, as `generate_otpk` draws it.
unfoldable pub prepare_in :
    Engine
    → SmdpSigned2
    → Bytes
    → Option Bytes
    → Option Bytes
    → Option Bytes
    → Bytes × Bytes
    → Option DownloadSession
    → EuiccState
    → Outcome DownloadResult × EuiccState
prepare_in e signed signature hash_cc certificate raw otpk none s =
    (returned (download_error (replicate 16 0) 127), s)
prepare_in e signed signature hash_cc certificate raw otpk (some session) s =
    let transaction_id = default signed.transaction_id [] in
    if not session.authenticated
    then (returned (download_error (replicate 16 0) 127), s)
    else if not (bytes_eq transaction_id session.transaction_id)
    then (returned (download_error transaction_id 5), s)
    else conclude_prepare e (accepts e signature certificate raw session) transaction_id
        (default signed.bpp_euicc_otpk []) hash_cc otpk session s

unfoldable pub prepare_download :
    Engine
    → SmdpSigned2
    → Bytes
    → Option Bytes
    → Option Bytes
    → Option Bytes
    → Bytes × Bytes
    → EuiccState
    → Outcome DownloadResult × EuiccState
prepare_download e signed signature hash_cc certificate raw otpk s =
    prepare_in e signed signature hash_cc certificate raw otpk s.active_session s
