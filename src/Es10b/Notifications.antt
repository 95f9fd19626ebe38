-- ===== src/Es10b/Notifications.antt =====
-- `cancel_session` of app/es10/es10b.py, and its notification queue.
use euicc_simulator.Prelude.{
  ℕ, Bool, not, Option, none, some, List, [], ◌∷◌, map, Bytes, Text, codes, bytes_eq, truthy,
  find_ref, pop_at, ◌==◌, if◌then◌else◌, replicate,
}
use euicc_simulator.Prelude.Outcome.{Outcome, returned, raised}
use euicc_simulator.Euicc.{
  Operation, install, enable, disable, delete, Notification, DownloadSession, EuiccState,
}
use euicc_simulator.Es10b.Engine.{Engine}

pub data CancelResult : Type 0 where
  cancel_error : ℕ → CancelResult
  -- Transaction, reason, signature.
  cancel_ok : Bytes → ℕ → Bytes → CancelResult

-- On the state's session.
unfoldable pub cancel_in :
    Engine → Bytes → ℕ → Option DownloadSession → EuiccState → Outcome CancelResult × EuiccState
cancel_in e transaction_id reason none s = (returned (cancel_error 1), s)
cancel_in e transaction_id reason (some session) s =
    if not (bytes_eq transaction_id session.transaction_id)
    then (returned (cancel_error 1), s)
    else elim (e.encode_cancel_session_signed transaction_id reason) [
      | none ↦ (raised, s)
      | some tbs ↦ (
        returned (cancel_ok transaction_id reason (e.sign e.private_key tbs)),
        record s { active_session = none },
      )
    ]

unfoldable pub cancel_session : Engine → Bytes → ℕ → EuiccState → Outcome CancelResult × EuiccState
cancel_session e transaction_id reason s = cancel_in e transaction_id reason s.active_session s

-- `n.operation.encode()`.
abbrev pub operation_name : Operation → Text
operation_name install = codes "install"
operation_name enable = codes "enable"
operation_name disable = codes "disable"
operation_name delete = codes "delete"

pub record Metadata : Type 0 where
  pub seq_number : ℕ
  pub profile_management_operation : Bytes
  pub notification_address : Text
  pub iccid : Option Bytes

abbrev pub metadata : Notification → Metadata
metadata n = record {
  seq_number = n.seq_number;
  profile_management_operation = operation_name n.operation;
  notification_address = n.notification_address;
  iccid = n.iccid;
}

-- `none` is the error of an empty list. The filter is not read.
unfoldable pub list_notifications : Option Bytes → EuiccState → Option (List Metadata)
list_notifications operation_filter s = elim s.notifications [
  | [] ↦ none
  | _ ∷ _ ↦ some (map metadata s.notifications)
]

abbrev pub has_number : ℕ → Notification → Bool
has_number seq_number n = n.seq_number == seq_number

unfoldable pub remove_notification : ℕ → EuiccState → ℕ × EuiccState
remove_notification seq_number s = elim (find_ref (has_number seq_number) s.notifications) [
  | none ↦ (1, s)
  | some (i, n) ↦ (0, record s { notifications = pop_at i s.notifications })
]

-- What of a notification `retrieve_notifications_list_sgp32` returns, beside its constants.
pub record RetrievedNotification : Type 0 where
  pub seq_number : ℕ
  pub notification_address : Text
  pub iccid : Bytes

abbrev pub iccid_or_zeros : Option Bytes → Bytes
iccid_or_zeros none = replicate 10 0
iccid_or_zeros (some iccid) = if truthy iccid then iccid else replicate 10 0

abbrev pub retrieved : Notification → RetrievedNotification
retrieved n = record {
  seq_number = n.seq_number;
  notification_address = n.notification_address;
  iccid = iccid_or_zeros n.iccid;
}

-- `none` is the error 127.
unfoldable pub retrieve_notifications_list_sgp32 : EuiccState → Option (List RetrievedNotification)
retrieve_notifications_list_sgp32 s = elim s.notifications [
  | [] ↦ none
  | _ ∷ _ ↦ some (map retrieved s.notifications)
]
