-- ===== src/Es10b/Engine.antt =====
-- What `Es10bHandler` of app/es10/es10b.py calls: the PKI, the validation of certificates, the
-- ECDSA engine and the ASN.1 codec, as a record of operations. `none` is an exception. Keys are
-- represented by their encodings.
use euicc_simulator.Prelude.{ℕ, Bool, Option, List, Bytes, Text}
use euicc_simulator.Crypto.CertValidator.{CertCheck}
use euicc_simulator.Crypto.Scp03t.{Ciphers}
use euicc_simulator.Euicc.{SessionKeys}

-- The dictionary `server_signed1`, a missing key being `none`.
pub record ServerSigned1 : Type 0 where
  pub transaction_id : Option Bytes
  pub euicc_challenge : Option Bytes
  pub server_address : Option Text
  pub server_challenge : Option Bytes

pub record SmdpSigned2 : Type 0 where
  pub transaction_id : Option Bytes
  pub bpp_euicc_otpk : Option Bytes

pub record EuiccInfo1 : Type 0 where
  pub svn : Bytes
  pub for_verification : List Bytes
  pub for_signing : List Bytes

pub record EuiccInfo2 : Type 0 where
  pub profile_version : Bytes
  pub svn : Bytes
  pub firmware_version : Bytes
  pub ext_card_resource : Bytes
  pub uicc_capability : Bytes
  pub rsp_capability : Bytes
  pub for_verification : List Bytes
  pub for_signing : List Bytes
  pub pp_version : Bytes
  pub sas_accreditation_number : Text
  pub platform_label : Text
  pub discovery_base_url : Text
  pub ipa_mode : ℕ
  pub iot_version : Bytes

-- `deviceInfo.tac`, which a JSON client sends as a text.
pub data Tac : Type 0 where
  octets : Bytes → Tac
  digits : Text → Tac
  no_tac : Tac

-- The value of a context: a dictionary with a `deviceInfo` dictionary, one without it, or none.
pub data CtxValue : Type 0 where
  with_device : Text → Tac → CtxValue
  without_device : Text → CtxValue
  no_dict : Text → CtxValue

-- `ctx_params1`: a pair, a dictionary with the key `ctxParamsForCommonAuthentication`, or neither.
pub data CtxParams : Type 0 where
  choice : Text → CtxValue → CtxParams
  keyed : CtxValue → CtxParams
  other : CtxParams

pub record EuiccSigned1 : Type 0 where
  pub transaction_id : Bytes
  pub server_address : Text
  pub server_challenge : Bytes
  pub euicc_info2 : EuiccInfo2
  pub ctx_params1 : Text × CtxValue

pub record EuiccSigned2 : Type 0 where
  pub transaction_id : Bytes
  pub euicc_otpk : Bytes
  pub hash_cc : Option Bytes

-- `ProfileInstallationResultData` of a success.
pub record ResultData : Type 0 where
  pub transaction_id : Bytes
  pub seq_number : ℕ
  pub notification_address : Text
  pub iccid : Bytes
  pub aid : Bytes

pub record Engine : Type 0 where
  pub trusted_ci_pkids : List Bytes
  pub ci_pki_id : Bytes
  pub euicc_certificate : Bytes
  pub eum_certificate : Bytes
  pub private_key : Bytes
  pub validate_server_cert : Bytes → Bytes → CertCheck
  -- Key, signature, data.
  pub verify : Bytes → Bytes → Bytes → Bool
  pub sign : Bytes → Bytes → Bytes
  pub derive_session_keys : Bytes → Bytes → Bytes → Option SessionKeys
  pub encode_server_signed1 : ServerSigned1 → Option Bytes
  pub encode_euicc_signed1 : EuiccSigned1 → Option Bytes
  pub encode_euicc_signed2 : EuiccSigned2 → Option Bytes
  pub encode_result_data : ResultData → Option Bytes
  pub encode_cancel_session_signed : Bytes → ℕ → Option Bytes
  pub ciphers : Ciphers
