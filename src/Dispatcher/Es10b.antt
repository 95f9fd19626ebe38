-- ===== src/Dispatcher/Es10b.antt =====
-- The ES10b handlers of app/services/apdu_dispatcher.py. What is drawn at random is an argument.
use euicc_simulator.Prelude.{Option, none, some, [], List, Bytes, default, replicate}
use euicc_simulator.Euicc.{EuiccState}
use euicc_simulator.Es10b.Engine.{ServerSigned1, SmdpSigned2, Engine}
use euicc_simulator.Es10b.Info.{
  get_euicc_info1, get_euicc_info2, get_euicc_information, get_euicc_challenge,
}
use euicc_simulator.Es10b.Authenticate.{AuthResult, auth_error, auth_ok, authenticate_server}
use euicc_simulator.Es10b.Prepare.{DownloadResult, download_error, download_ok, prepare_download}
use euicc_simulator.Es10b.Load.{load_bound_profile_package}
use euicc_simulator.Es10b.Notifications.{
  Metadata, RetrievedNotification, cancel_session, list_notifications, remove_notification,
  retrieve_notifications_list_sgp32,
}
use euicc_simulator.Dispatcher.Codec.{
  Message, euicc_info1, euicc_info2, euicc_challenge, authenticate_error, authenticate_ok,
  prepare_error, prepare_ok, installation_result, cancel_response, notification_list,
  notification_error, remove_response, retrieved_list, retrieved_error, euicc_information, Codec,
  Handled, encoded, respond, respond_with, answer, decoded,
}

unfoldable pub handle_get_info1 : Codec → Engine → EuiccState → Handled
handle_get_info1 c e s = answer c euicc_info1 (get_euicc_info1 e s) s

unfoldable pub handle_get_info2 : Codec → Engine → EuiccState → Handled
handle_get_info2 c e s = answer c euicc_info2 (get_euicc_info2 e s) s

unfoldable pub handle_get_challenge : Codec → Bytes → EuiccState → Handled
handle_get_challenge c drawn s = respond_with c euicc_challenge (get_euicc_challenge drawn s)

-- `{}`.
abbrev pub no_server_signed1 : ServerSigned1
no_server_signed1 = record {
  transaction_id = none;
  euicc_challenge = none;
  server_address = none;
  server_challenge = none;
}

abbrev pub no_smdp_signed2 : SmdpSigned2
no_smdp_signed2 = record { transaction_id = none; bpp_euicc_otpk = none }

-- The choice of the response, which leaves out the raw encoding.
abbrev pub authenticate_message : AuthResult → Message
authenticate_message (auth_error transaction_id code) = authenticate_error transaction_id code
authenticate_message (auth_ok signed raw signature certificate eum) =
    authenticate_ok signed signature certificate eum

unfoldable pub handle_authenticate_server : Codec → Engine → Bytes → EuiccState → Handled
handle_authenticate_server c e inner s =
    decoded (c.decode_authenticate inner)
      (λ q. respond c authenticate_message (
        authenticate_server e (default q.server_signed1 no_server_signed1)
          (default q.server_signature1 []) (default q.ci_pkid_to_be_used [])
          (default q.server_certificate []) q.ctx_params1 none s))
      s

abbrev pub prepare_message : DownloadResult → Message
prepare_message (download_error transaction_id code) = prepare_error transaction_id code
prepare_message (download_ok signed signature raw) = prepare_ok signed signature

unfoldable pub handle_prepare_download :
    Codec → Engine → Bytes × Bytes → Bytes → EuiccState → Handled
handle_prepare_download c e otpk inner s =
    decoded (c.decode_prepare inner)
      (λ q. respond c prepare_message (
        prepare_download e (default q.smdp_signed2 no_smdp_signed2) (default q.smdp_signature2 [])
          q.hash_cc q.smdp_certificate none otpk s))
      s

unfoldable pub handle_load_bpp : Codec → Engine → Bytes → Bytes → EuiccState → Handled
handle_load_bpp c e random_iccid inner s =
    decoded (c.decode_bpp inner)
      (λ bpp. respond c installation_result (load_bound_profile_package e bpp random_iccid s)) s

unfoldable pub handle_cancel_session : Codec → Engine → Bytes → EuiccState → Handled
handle_cancel_session c e inner s =
    decoded (c.decode_cancel inner)
      (λ q.
        respond c cancel_response
          (cancel_session e (default q.transaction_id (replicate 16 0)) (default q.reason 0) s))
      s

abbrev pub list_message : Option (List Metadata) → Message
list_message none = notification_error 1
list_message (some entries) = notification_list entries

unfoldable pub handle_list_notifications : Codec → EuiccState → Handled
handle_list_notifications c s = (encoded (c.encode (list_message (list_notifications none s))), s)

unfoldable pub handle_remove_notification : Codec → Bytes → EuiccState → Handled
handle_remove_notification c inner s =
    decoded (c.decode_remove inner)
      (λ seq_number. respond_with c remove_response (remove_notification (default seq_number 0) s))
      s

abbrev pub retrieved_message : Option (List RetrievedNotification) → Message
retrieved_message none = retrieved_error 127
retrieved_message (some entries) = retrieved_list entries

-- A request that does not decode is passed over, and what it holds is not read.
unfoldable pub handle_retrieve_notifications : Codec → EuiccState → Handled
handle_retrieve_notifications c s =
    (encoded (c.encode (retrieved_message (retrieve_notifications_list_sgp32 s))), s)

unfoldable pub handle_get_euicc_information : Codec → Engine → EuiccState → Handled
handle_get_euicc_information c e s = answer c euicc_information (get_euicc_information e s) s
