-- ===== src/Dispatcher/Failures.antt =====
-- Commands that `dispatch` of app/services/apdu_dispatcher.py cannot carry out.
use euicc_simulator.Prelude.{
  ℕ, ◌≡◌, refl, Option, none, some, [], ◌∷◌, Bytes, Text, bytes_eq_refl, default, replicate,
}
use euicc_simulator.Prelude.Outcome.{Outcome, returned}
use euicc_simulator.Euicc.{DownloadSession, EuiccState}
use euicc_simulator.Es10b.Engine.{Engine}
use euicc_simulator.Es10b.Notifications.{CancelResult, cancel_ok, cancel_in, cancel_session}
use euicc_simulator.Services.Tlv.{identify_command}
use euicc_simulator.Dispatcher.Codec.{CancelRequest, choice, cancel_response, Codec}
use euicc_simulator.Dispatcher.Es10b.{handle_cancel_session}
use euicc_simulator.Dispatcher.Iot.{handle_iot_package}
use euicc_simulator.Dispatcher.Routes.{Draws, route_in, execute, dispatch}

abbrev internal_error : Outcome Bytes
internal_error = returned (0x6F ∷ 0x00 ∷ [])

cancel_in_own :
    (e : Engine) (d : DownloadSession) (reason : ℕ) (tbs : Bytes) (o : Option DownloadSession)
    (s : EuiccState)
    → o ≡ some d
    → e.encode_cancel_session_signed d.transaction_id reason ≡ some tbs
    → cancel_in e d.transaction_id reason o s ≡ (
      returned (cancel_ok d.transaction_id reason (e.sign e.private_key tbs)),
      record s { active_session = none },
    )
unfolding cancel_in
cancel_in_own e d reason tbs o s h made =
    rw (h, cancel_in, bytes_eq_refl d.transaction_id, made) refl

module _ (c : Codec) (e : Engine) (drawn : Draws) (eid : Text) where
  -- A LoadEuiccPackage whose request decodes to the pair that stands for a CHOICE answers 6F00 and
  -- changes nothing.
  pub dispatch_package_choice :
      (command inner : Bytes) (name alternative : Text) (s : EuiccState)
      → identify_command command ≡ some (0xBF50, name, inner)
      → c.decode_package inner ≡ some (choice alternative)
      → dispatch c e drawn eid command s ≡ (internal_error, s)
  unfolding dispatch execute route_in handle_iot_package
  dispatch_package_choice command inner name alternative s h pair = rw (h, pair) refl

  -- With a codec that does not encode a dictionary as the CHOICE CancelSessionResponse, the session's
  -- own CancelSession answers 6F00 although the session is over.
  pub dispatch_cancel_error :
      (command inner tbs : Bytes) (name : Text) (q : CancelRequest) (d : DownloadSession)
      (s : EuiccState)
      → identify_command command ≡ some (0xBF41, name, inner)
      → c.decode_cancel inner ≡ some q
      → ((r : CancelResult) → c.encode (cancel_response r) ≡ none)
      → s.active_session ≡ some d
      → default q.transaction_id (replicate 16 0) ≡ d.transaction_id
      → e.encode_cancel_session_signed d.transaction_id (default q.reason 0) ≡ some tbs
      → dispatch c e drawn eid command s ≡ (internal_error, record s { active_session = none })
  unfolding dispatch execute route_in handle_cancel_session cancel_session
  dispatch_cancel_error command inner tbs name q d s h dec refuses here same made =
      rw
        (
          h,
          dec,
          same,
          cancel_in_own e d (default q.reason 0) tbs s.active_session s here made,
          refuses _,
        )
        refl
