-- ===== src/Tests/Cards.antt =====
-- A card with two profiles and two eIMs, for the tests of app/es10.
use euicc_simulator.Prelude.{◌≡◌, refl, some, [], ◌∷◌, Bytes, codes, arith, bytes_eq}
use euicc_simulator.Prelude.Int.{pos}
use euicc_simulator.Euicc.{
  ProfileSlot, disabled, enabled, operational, EimAssociation, EuiccState, new_euicc, iccid_string,
  allocate_isdp_aid, ext_card_resource_bytes,
}
use euicc_simulator.Euicc.Valid.{IsValid}

abbrev pub iccid_a : Bytes
iccid_a = 0x98 ∷ 0x10 ∷ 0x32 ∷ 0x54 ∷ 0x76 ∷ 0x98 ∷ 0x10 ∷ 0x32 ∷ 0x54 ∷ 0xF6 ∷ []

abbrev pub iccid_b : Bytes
iccid_b = 0x98 ∷ 0x10 ∷ 0x32 ∷ 0x54 ∷ 0x76 ∷ 0x98 ∷ 0x10 ∷ 0x32 ∷ 0x54 ∷ 0xF7 ∷ []

abbrev pub profile_a : ProfileSlot
profile_a = record {
  iccid = iccid_a;
  isdp_aid = 0xA0 ∷ 0x01 ∷ [];
  state = enabled;
  profile_name = codes "one";
  service_provider_name = codes "sp";
  profile_nickname = [];
  profile_class = operational;
  notification_address = codes "smdp";
  policy_rules = [];
  profile_data = 1 ∷ 2 ∷ 3 ∷ [];
}

abbrev pub profile_b : ProfileSlot
profile_b = record profile_a {
  iccid = iccid_b;
  isdp_aid = 0xA0 ∷ 0x02 ∷ [];
  state = disabled;
  profile_name = codes "two";
  profile_data = [];
}

abbrev pub eim_a : EimAssociation
eim_a = record {
  eim_id = codes "EIM-A";
  eim_fqdn = codes "eim.example";
  counter_value = pos 4;
  association_token = 17;
  supported_protocol = 0;
}

abbrev pub eim_b : EimAssociation
eim_b = record eim_a { eim_id = codes "EIM-B"; counter_value = pos 0 }

abbrev pub card : EuiccState
card = record (new_euicc (codes "8904")) {
  profiles = profile_a ∷ profile_b ∷ [];
  eim_associations = eim_a ∷ eim_b ∷ [];
}

pub card-IsValid : IsValid card
unfolding new_euicc bytes_eq
card-IsValid = record {
  one_enabled = omega arith;
  numbered = omega arith;
  distinct = (refl, (refl, tt));
  room = omega arith;
}

iccid_of_a : iccid_string profile_a ≡ codes "8901234567890123456"
unfolding iccid_string
iccid_of_a = refl

third_aid :
    allocate_isdp_aid card
    ≡ some (
        0xA0 ∷ 0 ∷ 0 ∷ 5 ∷ 0x59 ∷ 0x10 ∷ 0x10 ∷ 0xFF ∷ 0xFF ∷ 0xFF ∷ 0xFF ∷ 0x89 ∷ 0 ∷ 0 ∷ 3 ∷ 0
        ∷ [])
unfolding allocate_isdp_aid
third_aid = refl

resources :
    ext_card_resource_bytes (new_euicc [])
    ≡ some (0x82 ∷ 3 ∷ 7 ∷ 0x80 ∷ 0 ∷ 0x83 ∷ 3 ∷ 0 ∷ 0x1C ∷ 0 ∷ [])
unfolding ext_card_resource_bytes new_euicc
resources = refl
