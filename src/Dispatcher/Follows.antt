-- ===== src/Dispatcher/Follows.antt =====
-- The handlers of app/services/apdu_dispatcher.py against the table of calls: each branch leaves the
-- state that its call leaves.
use euicc_simulator.Prelude.{◌>>=◌, map, ◌≡◌, refl, Option, none, some, [], Bytes, default}
use euicc_simulator.Prelude.Outcome.{Outcome, returned, raised}
use euicc_simulator.Euicc.{EuiccState}
use euicc_simulator.Es10b.Engine.{Engine}
use euicc_simulator.Es10c.{configure_auto_enable, enable_using_dd}
use euicc_simulator.Simulator.{Command}
use euicc_simulator.Dispatcher.Codec.{
  Message, PackageRequest, fields, choice, Codec, Handled, respond, answer, decoded,
}
use euicc_simulator.Dispatcher.Es10b.{
  authenticate_message, prepare_message, handle_get_info1, handle_get_info2, handle_get_challenge,
  handle_authenticate_server, handle_prepare_download, handle_load_bpp, handle_cancel_session,
  handle_list_notifications, handle_remove_notification, handle_retrieve_notifications,
  handle_get_euicc_information,
}
use euicc_simulator.Dispatcher.Es10c.{
  handle_get_eid, handle_get_profiles, handle_enable_profile, handle_disable_profile,
  handle_delete_profile, handle_memory_reset, handle_set_nickname, handle_profile_rollback,
  handle_configure_auto_enable, handle_enable_using_dd, handle_get_addresses, handle_set_dp_address,
}
use euicc_simulator.Dispatcher.Iot.{
  load_request, with_tokens, handle_iot_package, handle_get_eim_config, handle_get_eim_config_sgp32,
  handle_get_certs, handle_add_initial_eim,
}
use euicc_simulator.Dispatcher.Requests.{
  ran, package_call, authenticate_call, prepare_call, load_call, cancel_call, reset_call, calls,
}
use euicc_simulator.Dispatcher.Routes.{
  Route, get_info1, get_info2, get_challenge, authenticate, prepare, load_bpp, cancel,
  list_notifications, remove_notification, retrieve_notifications, get_information, get_eid,
  get_profiles, enable, disable, delete, memory_reset, nickname, rollback, auto_enable, using_dd,
  get_addresses, set_dp_address, iot_package, get_eim_config, get_eim_config_sgp32, get_certs,
  add_initial_eim, branches, Draws, follow,
}

answer_state {ℓ} :
    {A : Type ℓ} (c : Codec) (message : A → Message) (o : Option A) (s : EuiccState)
    → (answer c message o s).1 ≡ s
answer_state c message none s = refl
answer_state c message (some a) s = refl

respond_state {ℓ} :
    {A : Type ℓ} (c : Codec) (message : A → Message) (p : Outcome A × EuiccState)
    → (respond c message p).1 ≡ p.1
respond_state c message (raised, s) = refl
respond_state c message (returned a, s) = refl

module _ (e : Engine) (s : EuiccState) where
  decoded-ran {ℓ} :
      {A : Type ℓ} (o : Option A) (handle : A → Handled) (call : A → Option Command)
      → ((a : A) → (handle a).1 ≡ ran e (call a) s)
      → (decoded o handle s).1 ≡ ran e (o >>= call) s
  decoded-ran none handle call h = refl
  decoded-ran (some a) handle call h = h a

  -- A request that decodes and changes nothing.
  decoded_state {ℓ} :
      {A : Type ℓ} (o : Option A) (handle : A → Handled)
      → ((a : A) → (handle a).1 ≡ s)
      → (decoded o handle s).1 ≡ s
  decoded_state none handle h = refl
  decoded_state (some a) handle h = h a

module _ (c : Codec) (drawn : Draws) where
  -- The call that a branch's request stands for.
  abbrev pub asks : Route → Bytes → Option Command
  asks get_info1 inner = none
  asks get_info2 inner = none
  asks get_challenge inner = some (Command.challenge drawn.challenge)
  asks authenticate inner = c.decode_authenticate inner >>= authenticate_call
  asks prepare inner = c.decode_prepare inner >>= prepare_call drawn.otpk
  asks load_bpp inner = c.decode_bpp inner >>= load_call drawn.iccid
  asks cancel inner = c.decode_cancel inner >>= cancel_call
  asks list_notifications inner = none
  asks remove_notification inner =
      c.decode_remove inner >>= (λ n. some (Command.remove (default n 0)))
  asks retrieve_notifications inner = none
  asks get_information inner = none
  asks get_eid inner = none
  asks get_profiles inner = none
  asks enable inner = c.decode_enable inner >>= (λ q. some (Command.enable q.iccid q.isdp_aid))
  asks disable inner = c.decode_disable inner >>= (λ q. some (Command.disable q.iccid q.isdp_aid))
  asks delete inner = c.decode_delete inner >>= (λ q. some (Command.delete q.iccid q.isdp_aid))
  asks memory_reset inner = c.decode_reset inner >>= reset_call
  asks nickname inner =
      c.decode_nickname inner
      >>= (λ q. some (Command.nickname (default q.iccid []) (default q.profile_nickname [])))
  asks rollback inner = c.decode_rollback inner >>= (λ flag. some Command.rollback)
  asks auto_enable inner = none
  asks using_dd inner = none
  asks get_addresses inner = none
  asks set_dp_address inner = none
  asks iot_package inner = c.decode_package inner >>= package_call drawn.tokens
  asks get_eim_config inner = none
  asks get_eim_config_sgp32 inner = none
  asks get_certs inner = none
  asks add_initial_eim inner =
      c.decode_initial_eims inner
      >>= (λ configs. some (Command.register_initial (with_tokens drawn.tokens 0 configs)))

  -- The tests of the branches are the tags of the table, in its order.
  pub calls-branches : calls c drawn ≡ map (λ b. (b.0, asks b.1)) branches
  calls-branches = refl

module _ (c : Codec) (e : Engine) (drawn : Draws) where
  load_request-ran :
      (request : PackageRequest) (s : EuiccState)
      → (load_request c drawn.tokens request s).1 ≡ ran e (package_call drawn.tokens request) s
  load_request-ran (fields package_of) s = refl
  load_request-ran (choice name) s = refl

  handle_authenticate_server-ran :
      (inner : Bytes) (s : EuiccState)
      → (handle_authenticate_server c e inner s).1
        ≡ ran e (c.decode_authenticate inner >>= authenticate_call) s
  unfolding handle_authenticate_server
  handle_authenticate_server-ran inner s =
      decoded-ran e s (c.decode_authenticate inner) _ authenticate_call
        (λ q. respond_state c authenticate_message _)

  handle_prepare_download-ran :
      (inner : Bytes) (s : EuiccState)
      → (handle_prepare_download c e drawn.otpk inner s).1
        ≡ ran e (c.decode_prepare inner >>= prepare_call drawn.otpk) s
  unfolding handle_prepare_download
  handle_prepare_download-ran inner s =
      decoded-ran e s (c.decode_prepare inner) _ (prepare_call drawn.otpk)
        (λ q. respond_state c prepare_message _)

  handle_load_bpp-ran :
      (inner : Bytes) (s : EuiccState)
      → (handle_load_bpp c e drawn.iccid inner s).1
        ≡ ran e (c.decode_bpp inner >>= load_call drawn.iccid) s
  unfolding handle_load_bpp
  handle_load_bpp-ran inner s =
      decoded-ran e s (c.decode_bpp inner) _ (load_call drawn.iccid) (λ q. respond_state c _ _)

  handle_cancel_session-ran :
      (inner : Bytes) (s : EuiccState)
      → (handle_cancel_session c e inner s).1 ≡ ran e (c.decode_cancel inner >>= cancel_call) s
  unfolding handle_cancel_session
  handle_cancel_session-ran inner s =
      decoded-ran e s (c.decode_cancel inner) _ cancel_call (λ q. respond_state c _ _)

  handle_memory_reset-ran :
      (inner : Bytes) (s : EuiccState)
      → (handle_memory_reset c inner s).1 ≡ ran e (c.decode_reset inner >>= reset_call) s
  unfolding handle_memory_reset
  handle_memory_reset-ran inner s =
      decoded-ran e s (c.decode_reset inner) _ reset_call (λ q. respond_state c _ _)

  pub follow-ran :
      (route : Route) (inner : Bytes) (s : EuiccState)
      → (follow c e drawn route inner s).1 ≡ ran e (asks c drawn route inner) s
  unfolding handle_get_info1 handle_get_info2 handle_get_challenge handle_authenticate_server
      handle_prepare_download handle_load_bpp handle_cancel_session handle_list_notifications
      handle_remove_notification handle_retrieve_notifications handle_get_euicc_information
      handle_get_eid handle_get_profiles handle_enable_profile handle_disable_profile
      handle_delete_profile handle_memory_reset handle_set_nickname handle_profile_rollback
      handle_configure_auto_enable handle_enable_using_dd handle_get_addresses handle_set_dp_address
      handle_iot_package handle_get_eim_config handle_get_eim_config_sgp32 handle_get_certs
      handle_add_initial_eim configure_auto_enable enable_using_dd
  follow-ran get_info1 inner s = answer_state c _ _ s
  follow-ran get_info2 inner s = answer_state c _ _ s
  follow-ran get_challenge inner s = refl
  follow-ran authenticate inner s = handle_authenticate_server-ran inner s
  follow-ran prepare inner s = handle_prepare_download-ran inner s
  follow-ran load_bpp inner s = handle_load_bpp-ran inner s
  follow-ran cancel inner s = handle_cancel_session-ran inner s
  follow-ran list_notifications inner s = refl
  follow-ran remove_notification inner s = decoded-ran e s (c.decode_remove inner) _ _ (λ n. refl)
  follow-ran retrieve_notifications inner s = refl
  follow-ran get_information inner s = answer_state c _ _ s
  follow-ran get_eid inner s = answer_state c _ _ s
  follow-ran get_profiles inner s = refl
  follow-ran enable inner s = decoded-ran e s (c.decode_enable inner) _ _ (λ q. refl)
  follow-ran disable inner s = decoded-ran e s (c.decode_disable inner) _ _ (λ q. refl)
  follow-ran delete inner s = decoded-ran e s (c.decode_delete inner) _ _ (λ q. refl)
  follow-ran memory_reset inner s = handle_memory_reset-ran inner s
  follow-ran nickname inner s = decoded-ran e s (c.decode_nickname inner) _ _ (λ q. refl)
  follow-ran rollback inner s = decoded-ran e s (c.decode_rollback inner) _ _ (λ flag. refl)
  follow-ran auto_enable inner s =
      decoded_state e s (c.decode_auto_enable inner) _ (λ settings. refl)
  follow-ran using_dd inner s = refl
  follow-ran get_addresses inner s = refl
  follow-ran set_dp_address inner s = decoded_state e s (c.decode_address inner) _ (λ address. refl)
  follow-ran iot_package inner s =
      decoded-ran e s (c.decode_package inner) _ _ (λ r. load_request-ran r s)
  follow-ran get_eim_config inner s = refl
  follow-ran get_eim_config_sgp32 inner s = refl
  follow-ran get_certs inner s = decoded_state e s (c.decode_certs inner) _ (λ pkid. refl)
  follow-ran add_initial_eim inner s =
      decoded-ran e s (c.decode_initial_eims inner) _ _ (λ configs. refl)
