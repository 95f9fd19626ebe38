-- ===== src/Euicc.antt =====
-- app/models/euicc.py: the state of one eUICC and the methods of `EuiccState`.
-- Byte strings and texts are lists of numbers. Objects in the state's lists are reached by
-- position, since the lists hold distinct objects. Key objects of the crypto library are
-- represented by their encodings.
mod Profiles
pub mod Valid
unfoldable pub use Profiles.*
use euicc_simulator.Prelude.{
  ℕ, zero, suc, ◌+◌, ◌*◌, ◌/◌, ◌%◌, ◌^◌, Bool, ◌&&◌, Option, none, some, List, [], ◌∷◌, ◌++◌, Bytes,
  Text, codes, bytes_eq, fromhex, find_ref, ltb, if◌then◌else◌, length,
}
use euicc_simulator.Prelude.Int.{ℤ, pos, negsuc}

pub record EimAssociation : Type 0 where
  pub eim_id : Text
  pub eim_fqdn : Text
  pub counter_value : ℤ
  pub association_token : ℕ
  pub supported_protocol : ℕ

-- `assoc.eim_id == eim_id`.
abbrev pub has_id : Text → EimAssociation → Bool
has_id eim_id a = bytes_eq a.eim_id eim_id

-- The values of `Notification.operation` that the code writes.
pub data Operation : Type 0 where
  install enable disable delete : Operation

pub record Notification : Type 0 where
  pub seq_number : ℕ
  pub operation : Operation
  pub notification_address : Text
  pub iccid : Option Bytes

-- `SessionKeys` of app/crypto/ecdsa_engine.py.
pub record SessionKeys : Type 0 where
  pub s_enc : Bytes
  pub s_mac : Bytes
  pub s_rmac : Bytes
  pub receipt_key : Bytes

pub record DownloadSession : Type 0 where
  pub transaction_id : Bytes
  pub server_address : Text
  pub euicc_challenge : Bytes
  pub server_challenge : Option Bytes
  pub server_public_key : Option Bytes
  pub euicc_signature1 : Bytes
  pub euicc_otpk_private : Option Bytes
  pub euicc_otpk_public : Bytes
  pub smdp_otpk_public : Bytes
  pub session_keys : Option SessionKeys
  pub authenticated : Bool
  pub prepared : Bool

abbrev pub Version : Type 0
Version = ℕ × ℕ × ℕ

pub record EuiccState : Type 0 where
  pub eid : Text
  pub svn : Version
  pub profile_version : Version
  pub firmware_version : Version
  pub platform_label : Text
  pub ipa_mode : ℕ
  pub iot_version : Version
  pub total_nvm : ℕ
  pub free_nvm : ℤ
  pub total_volatile : ℕ
  pub free_volatile : ℕ
  pub default_smdp_address : Text
  pub root_ds_address : Text
  pub profiles : List ProfileSlot
  pub max_profiles : ℕ
  pub eim_associations : List EimAssociation
  pub notifications : List Notification
  pub notification_seq : ℕ
  pub active_session : Option DownloadSession
  pub uicc_capability : Bytes
  pub rsp_capability : Bytes

-- `EuiccState(eid=…)`, every other field at its default.
unfoldable pub new_euicc : Text → EuiccState
new_euicc eid = record {
  eid = eid;
  svn = (3, 1, 0);
  profile_version = (2, 3, 1);
  firmware_version = (1, 0, 0);
  platform_label = codes "ConnectX-eUICC-Simulator";
  ipa_mode = 0;
  iot_version = (1, 2, 0);
  total_nvm = 512 * 1024;
  free_nvm = pos (480 * 1024);
  total_volatile = 8 * 1024;
  free_volatile = 7 * 1024;
  default_smdp_address = [];
  root_ds_address = [];
  profiles = [];
  max_profiles = 8;
  eim_associations = [];
  notifications = [];
  notification_seq = 0;
  active_session = none;
  uicc_capability = 0x07 ∷ 0x73 ∷ [];
  rsp_capability = 0x04 ∷ 0x90 ∷ [];
}

abbrev pub is_enabled : ProfileSlot → Bool
is_enabled p = state_eq p.state enabled

abbrev pub has_iccid : Bytes → ProfileSlot → Bool
has_iccid iccid p = bytes_eq p.iccid iccid

abbrev pub has_aid : Bytes → ProfileSlot → Bool
has_aid aid p = bytes_eq p.isdp_aid aid

unfoldable pub get_enabled_profile : EuiccState → Option (ℕ × ProfileSlot)
get_enabled_profile s = find_ref is_enabled s.profiles

unfoldable pub find_profile_by_iccid : EuiccState → Bytes → Option (ℕ × ProfileSlot)
find_profile_by_iccid s iccid = find_ref (has_iccid iccid) s.profiles

unfoldable pub find_profile_by_aid : EuiccState → Bytes → Option (ℕ × ProfileSlot)
find_profile_by_aid s aid = find_ref (has_aid aid) s.profiles

-- The counter's new value is the number that the method returns.
unfoldable pub next_notification_seq : EuiccState → ℕ × EuiccState
next_notification_seq s =
    (s.notification_seq + 1, record s { notification_seq = s.notification_seq + 1 })

unfoldable pub add_notification : Operation → Text → Option Bytes → EuiccState → EuiccState
unfolding next_notification_seq
add_notification operation address iccid s =
    let (seq, s') = next_notification_seq s in
    record s' {
      notifications =
          s'.notifications
          ++ record {
            seq_number = seq;
            operation = operation;
            notification_address = address;
            iccid = iccid;
          }
            ∷ [];
    }

abbrev upper_digit : ℕ → ℕ
upper_digit n = if ltb n 10 then 48 + n else 55 + n

-- The digits of `f"{n:X}"`, with fuel for the divisions.
hex_digits : ℕ → ℕ → Text → Text
hex_digits zero n acc = acc
hex_digits (suc fuel) n acc =
    let more = hex_digits fuel (n / 16) (upper_digit (n % 16) ∷ acc) in
    if ltb n 16 then upper_digit n ∷ acc else more

-- `f"{n:02X}"`.
unfoldable pub format_02x : ℕ → Text
unfolding hex_digits
format_02x n = if ltb n 16 then 48 ∷ upper_digit n ∷ [] else hex_digits (n + 1) n []

-- `none` is the ValueError of `fromhex`, at an odd number of digits.
unfoldable pub allocate_isdp_aid : EuiccState → Option Bytes
unfolding format_02x fromhex
allocate_isdp_aid s =
    let profile_num = length s.profiles + 1 in
    fromhex (codes "A0000005591010FFFFFFFF890000" ++ (format_02x profile_num ++ codes "00"))

-- `bytes(version)`; `none` is its ValueError.
unfoldable pub version_to_bytes : Version → Option Bytes
version_to_bytes (a, b, c) =
    if ltb a 256 && (ltb b 256 && ltb c 256) then some (a ∷ b ∷ c ∷ []) else none

-- `n.to_bytes(3, "big")`; `none` is its OverflowError.
unfoldable pub to_bytes_3 : ℤ → Option Bytes
to_bytes_3 (pos n) =
    if ltb n (2 ^ 24) then some ((n / 2 ^ 16) ∷ (n / 2 ^ 8 % 256) ∷ (n % 256) ∷ []) else none
to_bytes_3 (negsuc n) = none

abbrev pub card_resource : Option Bytes → Option Bytes → Option Bytes
card_resource (some nvm) (some vol) =
    some ((0x82 ∷ 0x03 ∷ []) ++ (nvm ++ ((0x83 ∷ 0x03 ∷ []) ++ vol)))
card_resource (some nvm) none = none
card_resource none vol = none

unfoldable pub ext_card_resource_bytes : EuiccState → Option Bytes
unfolding to_bytes_3
ext_card_resource_bytes s = card_resource (to_bytes_3 s.free_nvm) (to_bytes_3 (pos s.free_volatile))
