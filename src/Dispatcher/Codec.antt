-- ===== src/Dispatcher/Codec.antt =====
-- What `Es10Dispatcher` of app/services/apdu_dispatcher.py asks of the ASN.1 codec: a decoder for each
-- request, and an encoder of messages. `none` is an exception. A field of a request that the code
-- reads with `get` is an option.
use euicc_simulator.Prelude.{ℕ, Bool, Option, none, some, List, Bytes, Text}
use euicc_simulator.Prelude.Outcome.{Outcome, returned, raised}
use euicc_simulator.Euicc.{EimAssociation, EuiccState}
use euicc_simulator.Es10b.Engine.{
  ServerSigned1, SmdpSigned2, CtxParams, EuiccInfo1, EuiccInfo2, EuiccSigned1, EuiccSigned2,
}
use euicc_simulator.Es10b.Load.{Bpp, LoadResult}
use euicc_simulator.Es10b.Notifications.{CancelResult, Metadata, RetrievedNotification}
use euicc_simulator.Es10bIot.{EimConfig, InitialResult}
use euicc_simulator.Es10bIot.Package.{Package, PackageResult}
use euicc_simulator.Es10c.{ProfileInfo}
use euicc_simulator.Es10c.Reset.{ResetOptions}

pub record AuthenticateRequest : Type 0 where
  pub server_signed1 : Option ServerSigned1
  pub server_signature1 : Option Bytes
  pub ci_pkid_to_be_used : Option Bytes
  pub server_certificate : Option Bytes
  pub ctx_params1 : CtxParams

pub record PrepareRequest : Type 0 where
  pub smdp_signed2 : Option SmdpSigned2
  pub smdp_signature2 : Option Bytes
  pub hash_cc : Option Bytes
  pub smdp_certificate : Option Bytes

pub record CancelRequest : Type 0 where
  pub transaction_id : Option Bytes
  pub reason : Option ℕ

-- EnableProfile, DisableProfile, DeleteProfile.
pub record ProfileRequest : Type 0 where
  pub iccid : Option Bytes
  pub isdp_aid : Option Bytes

pub record NicknameRequest : Type 0 where
  pub iccid : Option Bytes
  pub profile_nickname : Option Text

-- What BF50 is decoded to: a dictionary, given the tokens that its eIM additions will draw, or the
-- pair of a name and a value that stands for a CHOICE.
pub data PackageRequest : Type 0 where
  fields : ((ℕ → ℕ) → Package) → PackageRequest
  choice : Text → PackageRequest

-- The arguments of `codec.encode`: the type and the value.
pub data Message : Type 0 where
  euicc_info1 : EuiccInfo1 → Message
  euicc_info2 : EuiccInfo2 → Message
  euicc_challenge : Bytes → Message
  authenticate_error : Bytes → ℕ → Message
  authenticate_ok : EuiccSigned1 → Bytes → Bytes → Bytes → Message
  prepare_error : Bytes → ℕ → Message
  prepare_ok : EuiccSigned2 → Bytes → Message
  installation_result : LoadResult → Message
  cancel_response : CancelResult → Message
  notification_list : List Metadata → Message
  notification_error : ℕ → Message
  remove_response : ℕ → Message
  retrieved_list : List RetrievedNotification → Message
  retrieved_error : ℕ → Message
  euicc_information : EuiccInfo2 → Message
  eid_response : Bytes → Message
  profile_list : List ProfileInfo → Message
  enable_response disable_response delete_response reset_response nickname_response : ℕ → Message
  rollback_response auto_enable_response dd_response : ℕ → Message
  addresses : Text × Text → Message
  package_response : PackageResult → Message
  eim_list eim_list_sgp32 : List EimAssociation → Message
  certs_response : Bytes × Bytes → Message
  initial_eims : List InitialResult → Message

pub record Codec : Type 0 where
  pub encode : Message → Option Bytes
  pub decode_authenticate : Bytes → Option AuthenticateRequest
  pub decode_prepare : Bytes → Option PrepareRequest
  pub decode_bpp : Bytes → Option Bpp
  pub decode_cancel : Bytes → Option CancelRequest
  pub decode_remove : Bytes → Option (Option ℕ)
  pub decode_enable : Bytes → Option ProfileRequest
  pub decode_disable : Bytes → Option ProfileRequest
  pub decode_delete : Bytes → Option ProfileRequest
  pub decode_reset : Bytes → Option ResetOptions
  pub decode_nickname : Bytes → Option NicknameRequest
  pub decode_rollback : Bytes → Option (Option Bool)
  pub decode_auto_enable : Bytes → Option (Option Text)
  pub decode_address : Bytes → Option (Option Text)
  pub decode_package : Bytes → Option PackageRequest
  pub decode_certs : Bytes → Option (Option Bytes)
  pub decode_initial_eims : Bytes → Option (List EimConfig)

-- How a handler ends: it raises, it returns `None`, or it returns the encoded response; and the
-- state that it leaves.
abbrev pub Handled : Type 0
Handled = Outcome (Option Bytes) × EuiccState

abbrev pub encoded : Option Bytes → Outcome (Option Bytes)
encoded none = raised
encoded (some b) = returned (some b)

-- A handler of app/es10 has run: its exception, or the encoding of its result.
abbrev pub respond {ℓ} : {A : Type ℓ} → Codec → (A → Message) → Outcome A × EuiccState → Handled
respond c message (raised, s) = (raised, s)
respond c message (returned a, s) = (encoded (c.encode (message a)), s)

-- The same where the handler cannot raise.
abbrev pub respond_with {ℓ} : {A : Type ℓ} → Codec → (A → Message) → A × EuiccState → Handled
respond_with c message (a, s) = (encoded (c.encode (message a)), s)

-- A query, `none` being its exception.
abbrev pub answer {ℓ} : {A : Type ℓ} → Codec → (A → Message) → Option A → EuiccState → Handled
answer c message none s = (raised, s)
answer c message (some a) s = (encoded (c.encode (message a)), s)

-- A request that does not decode gives `None`.
abbrev pub decoded {ℓ} : {A : Type ℓ} → Option A → (A → Handled) → EuiccState → Handled
decoded none handle s = (returned none, s)
decoded (some request) handle s = handle request
