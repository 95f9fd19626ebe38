-- ===== src/Es10b/Info.antt =====
-- `get_euicc_info1`, `get_euicc_info2`, `get_euicc_information` and `get_euicc_challenge` of
-- app/es10/es10b.py.
use euicc_simulator.Prelude.{
  ◌>>=◌, false, Option, none, some, [], ◌∷◌, Bytes, codes, truthy, if◌then◌else◌,
}
use euicc_simulator.Euicc.{DownloadSession, EuiccState, version_to_bytes, ext_card_resource_bytes}
use euicc_simulator.Es10b.Engine.{EuiccInfo1, EuiccInfo2, Engine}

unfoldable pub get_euicc_info1 : Engine → EuiccState → Option EuiccInfo1
get_euicc_info1 e s = elim (version_to_bytes s.svn) [
  | none ↦ none
  | some svn ↦
      some
        record { svn = svn; for_verification = e.trusted_ci_pkids; for_signing = e.ci_pki_id ∷ [] }
]

unfoldable pub get_euicc_info2 : Engine → EuiccState → Option EuiccInfo2
get_euicc_info2 e s = do
  profile_version ← version_to_bytes s.profile_version
  svn ← version_to_bytes s.svn
  firmware_version ← version_to_bytes s.firmware_version
  ext_card_resource ← ext_card_resource_bytes s
  iot_version ← version_to_bytes s.iot_version
  some record {
    profile_version = profile_version;
    svn = svn;
    firmware_version = firmware_version;
    ext_card_resource = ext_card_resource;
    uicc_capability = s.uicc_capability;
    rsp_capability = s.rsp_capability;
    for_verification = e.trusted_ci_pkids;
    for_signing = e.ci_pki_id ∷ [];
    pp_version = 0 ∷ 0 ∷ 0 ∷ [];
    sas_accreditation_number = [];
    platform_label =
        if truthy s.platform_label then s.platform_label else codes "ConnectX-eUICC-Sim";
    discovery_base_url = codes "https://euicc.connectxiot.com";
    ipa_mode = s.ipa_mode;
    iot_version = iot_version;
  }

unfoldable pub get_euicc_information : Engine → EuiccState → Option EuiccInfo2
get_euicc_information e s = get_euicc_info2 e s

-- A new session with a challenge; the challenge is the sixteen bytes of `os.urandom`.
abbrev pub fresh_session : Bytes → DownloadSession
fresh_session challenge = record {
  transaction_id = [];
  server_address = [];
  euicc_challenge = challenge;
  server_challenge = none;
  server_public_key = none;
  euicc_signature1 = [];
  euicc_otpk_private = none;
  euicc_otpk_public = [];
  smdp_otpk_public = [];
  session_keys = none;
  authenticated = false;
  prepared = false;
}

unfoldable pub get_euicc_challenge : Bytes → EuiccState → Bytes × EuiccState
get_euicc_challenge challenge s =
    (challenge, record s { active_session = some (fresh_session challenge) })
