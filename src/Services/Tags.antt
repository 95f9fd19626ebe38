-- ===== src/Services/Tags.antt =====
-- `ES10_TAGS` of app/services/apdu_handler.py, and the name of an unknown tag.
use euicc_simulator.Prelude.{
  ℕ, ◌+◌, ◌/◌, ◌%◌, List, [], ◌∷◌, ◌++◌, Text, codes, ltb, ◌==◌, if◌then◌else◌,
}

abbrev pub es10_tags : List (ℕ × Text)
es10_tags =
    (0xBF20, codes "GetEuiccInfo1")
    ∷ (0xBF22, codes "GetEuiccInfo2")
    ∷ (0xBF2E, codes "GetEuiccChallenge")
    ∷ (0xBF38, codes "AuthenticateServer")
    ∷ (0xBF21, codes "PrepareDownload")
    ∷ (0xBF36, codes "LoadBoundProfilePackage")
    ∷ (0xBF41, codes "CancelSession")
    ∷ (0xBF43, codes "GetEUICCInformation")
    ∷ (0xBF28, codes "ListNotification")
    ∷ (0xBF2F, codes "RemoveNotificationFromList")
    ∷ (0xBF2D, codes "GetProfilesInfo")
    ∷ (0xBF31, codes "EnableProfile")
    ∷ (0xBF32, codes "DisableProfile")
    ∷ (0xBF33, codes "DeleteProfile")
    ∷ (0xBF3E, codes "GetEID")
    ∷ (0xBF34, codes "eUICCMemoryReset")
    ∷ (0xBF29, codes "SetNickname")
    ∷ (0xBF3C, codes "GetEuiccConfiguredAddresses")
    ∷ (0xBF3F, codes "SetDefaultDpAddress")
    ∷ (0xBF50, codes "LoadEuiccPackage")
    ∷ (0xBF52, codes "GetEimConfigurationData")
    ∷ (0xBF55, codes "GetEimConfigurationDataSGP32")
    ∷ (0xBF56, codes "GetCertsSGP32")
    ∷ (0xBF57, codes "AddInitialEim")
    ∷ (0xBF2B, codes "RetrieveNotificationsListSGP32")
    ∷ (0xBF58, codes "ProfileRollback")
    ∷ (0xBF59, codes "ConfigureAutoProfileEnabling")
    ∷ (0xBF5A, codes "EnableUsingDD")
    ∷ []

-- `ES10_TAGS.get(tag, default)`.
unfoldable pub name_in : ℕ → List (ℕ × Text) → Text → Text
name_in tag [] unknown = unknown
name_in tag ((t, name) ∷ rest) unknown = if t == tag then name else name_in tag rest unknown

abbrev digit : ℕ → ℕ
digit n = if ltb n 10 then 48 + n else 55 + n

-- `f"Unknown(0x{tag:04X})"`, for a tag of two bytes at most.
unfoldable pub unknown_name : ℕ → Text
unknown_name tag =
    codes "Unknown(0x"
    ++ (digit (tag / 4096 % 16)
        ∷ digit (tag / 256 % 16)
        ∷ digit (tag / 16 % 16)
        ∷ digit (tag % 16)
        ∷ codes ")")

unfoldable pub command_name : ℕ → Text
unfolding name_in unknown_name
command_name tag = name_in tag es10_tags (unknown_name tag)
