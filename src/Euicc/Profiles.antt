-- ===== src/Euicc/Profiles.antt =====
-- app/models/euicc.py: a profile and its ICCID as text.
use euicc_simulator.Prelude.{
  ℕ, ◌-◌, Bool, true, false, ◌&&◌, [], ◌∷◌, Bytes, Text, bytes_eq, hex, leb, ◌==◌, if◌then◌else◌,
}

pub data ProfileState : Type 0 where
  disabled enabled : ProfileState

pub data ProfileClass : Type 0 where
  test provisioning operational : ProfileClass

-- `p.state == ProfileState.ENABLED`.
abbrev pub state_eq : ProfileState → ProfileState → Bool
state_eq disabled disabled = true
state_eq disabled enabled = false
state_eq enabled disabled = false
state_eq enabled enabled = true

abbrev pub class_eq : ProfileClass → ProfileClass → Bool
class_eq test test = true
class_eq provisioning provisioning = true
class_eq operational operational = true
class_eq _ _ = false

pub record ProfileSlot : Type 0 where
  pub iccid : Bytes
  pub isdp_aid : Bytes
  pub state : ProfileState
  pub profile_name : Text
  pub service_provider_name : Text
  pub profile_nickname : Text
  pub profile_class : ProfileClass
  pub notification_address : Text
  pub policy_rules : Bytes
  pub profile_data : Bytes

-- The equality that `@dataclass` generates, which `list.remove` calls.
unfoldable pub slot_eq : ProfileSlot → ProfileSlot → Bool
slot_eq a b =
    bytes_eq a.iccid b.iccid
    && (bytes_eq a.isdp_aid b.isdp_aid
        && (state_eq a.state b.state
            && (bytes_eq a.profile_name b.profile_name
                && (bytes_eq a.service_provider_name b.service_provider_name
                    && (bytes_eq a.profile_nickname b.profile_nickname
                        && (class_eq a.profile_class b.profile_class
                            && (bytes_eq a.notification_address b.notification_address
                                && (bytes_eq a.policy_rules b.policy_rules
                                    && bytes_eq a.profile_data b.profile_data))))))))

-- The loop of `iccid_string`, two digits at a time: `hex()` has an even number of them.
unfoldable pub swap_pairs : Text → Text
swap_pairs (a ∷ b ∷ r) = b ∷ a ∷ swap_pairs r
swap_pairs (a ∷ []) = []
swap_pairs [] = []

abbrev pub strip_head : ℕ → ℕ → Text → Text
strip_head c x [] = if x == c then [] else x ∷ []
strip_head c x (y ∷ ys) = x ∷ y ∷ ys

-- `s.rstrip(c)`.
unfoldable pub rstrip : ℕ → Text → Text
rstrip c [] = []
rstrip c (x ∷ xs) = strip_head c x (rstrip c xs)

-- `s.upper()` on the digits of `hex()`.
unfoldable pub upper : Text → Text
upper [] = []
upper (c ∷ cs) = (if leb b'a' c && leb c b'z' then c - 32 else c) ∷ upper cs

unfoldable pub iccid_string : ProfileSlot → Text
unfolding swap_pairs rstrip upper hex
iccid_string p = upper (rstrip b'f' (swap_pairs (hex p.iccid)))
