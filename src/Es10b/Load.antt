-- ===== src/Es10b/Load.antt =====
-- `load_bound_profile_package` of app/es10/es10b.py.
use euicc_simulator.Prelude.{
  ℕ, not, ◌&&◌, Option, none, some, [], ◌∷◌, ◌++◌, Bytes, Text, codes, bytes_eq, truthy, default,
  if◌then◌else◌, leb, length, take, replicate,
}
use euicc_simulator.Prelude.Int.{pos, ltb_ℤ, ◌-ℤ◌}
use euicc_simulator.Prelude.Outcome.{Outcome, returned, raised}
use euicc_simulator.Crypto.Scp03t.{
  Ciphers, Scp03tProcessor, new_channel, verify_and_decrypt, decrypt_profile_element,
}
use euicc_simulator.Euicc.{
  disabled, operational, ProfileSlot, Operation, SessionKeys, DownloadSession, EuiccState,
  add_notification, allocate_isdp_aid,
}
use euicc_simulator.Es10b.Engine.{ResultData, Engine}

-- The dictionary `bpp_data`; what is read with a default of `b""` is that where the key is missing.
pub record Bpp : Type 0 where
  pub transaction_id : Bytes
  pub first_sequence_of_87 : Bytes
  pub sequence_of_88 : Bytes
  pub second_sequence_of_87 : Bytes
  pub iccid : Option Bytes
  pub profile_name : Option Text
  pub sp_name : Option Text

pub data LoadResult : Type 0 where
  -- Transaction, command, reason.
  installation_error : Bytes → ℕ → ℕ → LoadResult
  -- The result and its signature.
  installed : ResultData → Bytes → LoadResult

-- The value of a decryption, or the data as they came where it raised.
abbrev pub or_as_is : Outcome Bytes → Bytes → Bytes
or_as_is (returned plain) encrypted = plain
or_as_is raised encrypted = encrypted

-- The same where the MAC was wrong; here an exception is not caught.
abbrev pub after_verify :
    Outcome (Option Bytes) × Scp03tProcessor → Bytes → Option (Bytes × Scp03tProcessor)
after_verify (raised, p) encrypted = none
after_verify (returned none, p) encrypted = some (encrypted, p)
after_verify (returned (some plain), p) encrypted = some (plain, p)

unfoldable pub first_elements :
    Ciphers → Bytes → Bytes → Scp03tProcessor → Option (Bytes × Scp03tProcessor)
first_elements c encrypted mac p =
    let (plain, p') = decrypt_profile_element c encrypted p in
    if truthy mac
    then after_verify (verify_and_decrypt c (encrypted ++ take 8 mac) p) encrypted
    else some (or_as_is plain encrypted, p')

abbrev pub with_second : Ciphers → Bytes → Option (Bytes × Scp03tProcessor) → Option Bytes
with_second c second none = none
with_second c second (some (first, p)) =
    if truthy second
    then some (first ++ or_as_is (decrypt_profile_element c second p).0 second)
    else some first

-- `decrypted_elements`; `none` is the exception of `verify_and_decrypt`.
unfoldable pub decrypted_elements : Engine → Option SessionKeys → Bpp → Option Bytes
decrypted_elements e none bpp = some bpp.first_sequence_of_87
decrypted_elements e (some keys) bpp =
    if truthy bpp.first_sequence_of_87
    then with_second e.ciphers bpp.second_sequence_of_87
        (first_elements e.ciphers bpp.first_sequence_of_87 bpp.sequence_of_88 (new_channel keys))
    else some bpp.first_sequence_of_87

abbrev pub estimated_size : Bytes → ℕ
estimated_size elements = if truthy elements then length elements else 4096

abbrev pub new_profile : Bpp → Bytes → Bytes → Text → Bytes → ProfileSlot
new_profile bpp iccid isdp_aid address elements = record {
  iccid = iccid;
  isdp_aid = isdp_aid;
  state = disabled;
  profile_name = default bpp.profile_name (codes "Downloaded Profile");
  service_provider_name = default bpp.sp_name [];
  profile_nickname = [];
  profile_class = operational;
  notification_address = address;
  policy_rules = [];
  profile_data = elements;
}

-- The state with the profile in it: memory taken, notification queued.
abbrev pub with_installed : ProfileSlot → EuiccState → EuiccState
with_installed profile s =
    add_notification Operation.install profile.notification_address (some profile.iccid) (record s {
      profiles = s.profiles ++ profile ∷ [];
      free_nvm = s.free_nvm -ℤ pos (estimated_size profile.profile_data);
    })

-- Step 5. The encoder may raise when the profile is installed already.
abbrev pub confirm :
    Engine → ResultData → Option Bytes → EuiccState → Outcome LoadResult × EuiccState
confirm e result none s = (raised, s)
confirm e result (some tbs) s =
    (returned (installed result (e.sign e.private_key tbs)), record s { active_session = none })

-- Steps 4 and 5, the profile's AID allocated.
unfoldable pub install :
    Engine
    → DownloadSession
    → Bpp
    → Bytes
    → Bytes
    → Bytes
    → EuiccState
    → Outcome LoadResult × EuiccState
install e session bpp iccid isdp_aid elements s =
    let s' = with_installed (new_profile bpp iccid isdp_aid session.server_address elements) s in
    let result : ResultData = record {
      transaction_id = session.transaction_id;
      seq_number = s'.notification_seq;
      notification_address = session.server_address;
      iccid = iccid;
      aid = isdp_aid;
    } in
    confirm e result (e.encode_result_data result) s'

-- Steps 3 to 5.
unfoldable pub check_room :
    Engine → DownloadSession → Bpp → Bytes → Bytes → EuiccState → Outcome LoadResult × EuiccState
check_room e session bpp random_iccid elements s =
    if ltb_ℤ s.free_nvm (pos (estimated_size elements))
    then (returned (installation_error session.transaction_id 0 3), s)
    else if leb s.max_profiles (length s.profiles)
    then (returned (installation_error session.transaction_id 0 3), s)
    else elim (allocate_isdp_aid s) [
      | none ↦ (raised, s)
      | some isdp_aid ↦ install e session bpp (default bpp.iccid random_iccid) isdp_aid elements s
    ]

-- On the state's session. `random_iccid` is what `os.urandom` gives for the default of the ICCID.
unfoldable pub load_in :
    Engine → Bpp → Bytes → Option DownloadSession → EuiccState → Outcome LoadResult × EuiccState
load_in e bpp random_iccid none s = (returned (installation_error (replicate 16 0) 0 4), s)
load_in e bpp random_iccid (some session) s =
    if not session.prepared
    then (returned (installation_error session.transaction_id 0 4), s)
    else if truthy bpp.transaction_id && not (bytes_eq bpp.transaction_id session.transaction_id)
    then (returned (installation_error session.transaction_id 0 1), s)
    else elim (decrypted_elements e session.session_keys bpp) [
      | none ↦ (raised, s)
      | some elements ↦ check_room e session bpp random_iccid elements s
    ]

unfoldable pub load_bound_profile_package :
    Engine → Bpp → Bytes → EuiccState → Outcome LoadResult × EuiccState
load_bound_profile_package e bpp random_iccid s = load_in e bpp random_iccid s.active_session s
