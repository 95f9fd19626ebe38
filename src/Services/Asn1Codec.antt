-- ===== src/Services/Asn1Codec.antt =====
-- `Asn1Codec` of app/services/asn1_codec.py over the schema that asn1tools compiles, a parameter: for
-- each message the type that it is encoded or decoded as. Values are dictionaries and pairs of Python,
-- `none` is an exception.
use euicc_simulator.Prelude.{◌>>=◌, ◌≡◌, refl, Option, some, Bytes, Text, codes}
use euicc_simulator.Services.Base64.{b64encode, b64decode}
use euicc_simulator.Services.Transfer.{AreOctets, b64decode-b64encode}

pub record Schema (V : Type 0) : Type 0 where
  pub encode_as : Text → V → Option Bytes
  pub decode_as : Text → Bytes → Option V

module _ {V : Type 0} (schema : Schema V) where
  unfoldable pub encode : Text → V → Option Bytes
  encode type_name value = schema.encode_as type_name value

  unfoldable pub decode : Text → Bytes → Option V
  decode type_name der_bytes = schema.decode_as type_name der_bytes

  unfoldable pub encode_base64 : Text → V → Option Text
  unfolding encode b64encode
  encode_base64 type_name value = do der ← encode type_name value; some (b64encode der)

  unfoldable pub decode_base64 : Text → Text → Option V
  unfolding decode b64decode
  decode_base64 type_name b64_string = do der ← b64decode b64_string; decode type_name der

  abbrev pub encode_server_signed1 : V → Option Bytes
  encode_server_signed1 value = schema.encode_as (codes "ServerSigned1") value

  abbrev pub encode_euicc_signed1 : V → Option Bytes
  encode_euicc_signed1 value = schema.encode_as (codes "EuiccSigned1") value

  abbrev pub encode_euicc_signed2 : V → Option Bytes
  encode_euicc_signed2 value = schema.encode_as (codes "EuiccSigned2") value

  abbrev pub encode_cancel_session_signed : V → Option Bytes
  encode_cancel_session_signed value = schema.encode_as (codes "EuiccCancelSessionSigned") value

  abbrev pub encode_smdp_signed2 : V → Option Bytes
  encode_smdp_signed2 value = schema.encode_as (codes "SmdpSigned2") value

  abbrev pub encode_euicc_info1 : V → Option Bytes
  encode_euicc_info1 value = schema.encode_as (codes "EuiccInfo1") value

  abbrev pub encode_euicc_info2 : V → Option Bytes
  encode_euicc_info2 value = schema.encode_as (codes "EuiccInfo2") value

  abbrev pub encode_euicc_challenge : V → Option Bytes
  encode_euicc_challenge value = schema.encode_as (codes "EuiccChallenge") value

  abbrev pub encode_authenticate_server_response : V → Option Bytes
  encode_authenticate_server_response value =
      schema.encode_as (codes "AuthenticateServerResponse") value

  abbrev pub encode_prepare_download_response : V → Option Bytes
  encode_prepare_download_response value = schema.encode_as (codes "PrepareDownloadResponse") value

  abbrev pub encode_profile_installation_result : V → Option Bytes
  encode_profile_installation_result value =
      schema.encode_as (codes "ProfileInstallationResult") value

  abbrev pub encode_profile_installation_result_data : V → Option Bytes
  encode_profile_installation_result_data value =
      schema.encode_as (codes "ProfileInstallationResultData") value

  abbrev pub encode_cancel_session_response : V → Option Bytes
  encode_cancel_session_response value = schema.encode_as (codes "CancelSessionResponse") value

  abbrev pub encode_profile_info_list_response : V → Option Bytes
  encode_profile_info_list_response value = schema.encode_as (codes "ProfileInfoListResponse") value

  abbrev pub encode_enable_profile_response : V → Option Bytes
  encode_enable_profile_response value = schema.encode_as (codes "EnableProfileResponse") value

  abbrev pub encode_disable_profile_response : V → Option Bytes
  encode_disable_profile_response value = schema.encode_as (codes "DisableProfileResponse") value

  abbrev pub encode_delete_profile_response : V → Option Bytes
  encode_delete_profile_response value = schema.encode_as (codes "DeleteProfileResponse") value

  abbrev pub encode_get_eid_response : V → Option Bytes
  encode_get_eid_response value = schema.encode_as (codes "GetEIDResponse") value

  abbrev pub encode_memory_reset_response : V → Option Bytes
  encode_memory_reset_response value = schema.encode_as (codes "EuiccMemoryResetResponse") value

  abbrev pub encode_nickname_response : V → Option Bytes
  encode_nickname_response value = schema.encode_as (codes "SetNicknameResponse") value

  abbrev pub encode_configured_addresses : V → Option Bytes
  encode_configured_addresses value = schema.encode_as (codes "EuiccConfiguredAddresses") value

  abbrev pub encode_set_dp_address_response : V → Option Bytes
  encode_set_dp_address_response value =
      schema.encode_as (codes "SetDefaultDpAddressResponse") value

  abbrev pub encode_notification_metadata : V → Option Bytes
  encode_notification_metadata value = schema.encode_as (codes "NotificationMetadata") value

  abbrev pub encode_list_notification_response : V → Option Bytes
  encode_list_notification_response value =
      schema.encode_as (codes "ListNotificationResponse") value

  abbrev pub encode_eim_config_data_list : V → Option Bytes
  encode_eim_config_data_list value = schema.encode_as (codes "EimConfigurationDataList") value

  abbrev pub encode_provide_eim_package_result : V → Option Bytes
  encode_provide_eim_package_result value = schema.encode_as (codes "ProvideEimPackageResult") value

  abbrev pub encode_ipa_euicc_data_response : V → Option Bytes
  encode_ipa_euicc_data_response value = schema.encode_as (codes "IpaEuiccDataResponse") value

  abbrev pub encode_profile_download_trigger_result : V → Option Bytes
  encode_profile_download_trigger_result value =
      schema.encode_as (codes "ProfileDownloadTriggerResult") value

  abbrev pub encode_eim_acknowledgements : V → Option Bytes
  encode_eim_acknowledgements value = schema.encode_as (codes "EimAcknowledgements") value

  abbrev pub decode_server_signed1 : Bytes → Option V
  decode_server_signed1 der_bytes = schema.decode_as (codes "ServerSigned1") der_bytes

  abbrev pub decode_authenticate_server_request : Bytes → Option V
  decode_authenticate_server_request der_bytes =
      schema.decode_as (codes "AuthenticateServerRequest") der_bytes

  abbrev pub decode_prepare_download_request : Bytes → Option V
  decode_prepare_download_request der_bytes =
      schema.decode_as (codes "PrepareDownloadRequest") der_bytes

  abbrev pub decode_bound_profile_package : Bytes → Option V
  decode_bound_profile_package der_bytes = schema.decode_as (codes "BoundProfilePackage") der_bytes

  abbrev pub decode_smdp_signed2 : Bytes → Option V
  decode_smdp_signed2 der_bytes = schema.decode_as (codes "SmdpSigned2") der_bytes

  -- A value that the schema encodes to octets which it decodes to the value again survives its transport
  -- as text: `encode_base64` gives a text, and `decode_base64` of that text the value.
  pub decode_base64-encode_base64 :
      (type_name : Text) (value : V) (der : Bytes)
      → schema.encode_as type_name value ≡ some der
      → schema.decode_as type_name der ≡ some value
      → AreOctets der
      → (text : Text) × (encode_base64 type_name value ≡ some text)
        × (decode_base64 type_name text ≡ some value)
  unfolding encode_base64 decode_base64 encode decode
  decode_base64-encode_base64 type_name value der made read octets =
      (b64encode der, rw made refl, rw (b64decode-b64encode der octets) read)
