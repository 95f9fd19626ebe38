-- ===== src/Dispatcher/Es10c.antt =====
-- The ES10c and ES10a handlers of app/services/apdu_dispatcher.py.
use euicc_simulator.Prelude.{none, [], Bytes, default}
use euicc_simulator.Prelude.Outcome.{raised}
use euicc_simulator.Euicc.{EuiccState}
use euicc_simulator.Es10a.{get_euicc_configured_addresses}
use euicc_simulator.Es10c.{
  get_profiles_info, enable_profile, disable_profile, delete_profile, get_eid, profile_rollback,
  configure_auto_enable, enable_using_dd, set_nickname,
}
use euicc_simulator.Es10c.Reset.{euicc_memory_reset}
use euicc_simulator.Dispatcher.Codec.{
  eid_response, profile_list, enable_response, disable_response, delete_response, reset_response,
  nickname_response, rollback_response, auto_enable_response, dd_response, addresses, Codec,
  Handled, encoded, respond, respond_with, answer, decoded,
}

unfoldable pub handle_get_eid : Codec → EuiccState → Handled
handle_get_eid c s = answer c eid_response (get_eid s) s

unfoldable pub handle_get_profiles : Codec → EuiccState → Handled
handle_get_profiles c s =
    (encoded (c.encode (profile_list (get_profiles_info none none none s))), s)

unfoldable pub handle_enable_profile : Codec → Bytes → EuiccState → Handled
handle_enable_profile c inner s =
    decoded (c.decode_enable inner)
      (λ q. respond_with c enable_response (enable_profile q.iccid q.isdp_aid s)) s

unfoldable pub handle_disable_profile : Codec → Bytes → EuiccState → Handled
handle_disable_profile c inner s =
    decoded (c.decode_disable inner)
      (λ q. respond_with c disable_response (disable_profile q.iccid q.isdp_aid s)) s

unfoldable pub handle_delete_profile : Codec → Bytes → EuiccState → Handled
handle_delete_profile c inner s =
    decoded (c.decode_delete inner)
      (λ q. respond_with c delete_response (delete_profile q.iccid q.isdp_aid s)) s

unfoldable pub handle_memory_reset : Codec → Bytes → EuiccState → Handled
handle_memory_reset c inner s =
    decoded (c.decode_reset inner)
      (λ options. respond c reset_response (euicc_memory_reset options s)) s

unfoldable pub handle_set_nickname : Codec → Bytes → EuiccState → Handled
handle_set_nickname c inner s =
    decoded (c.decode_nickname inner)
      (λ q.
        respond_with c nickname_response
          (set_nickname (default q.iccid []) (default q.profile_nickname []) s))
      s

-- The refresh flag is not read.
unfoldable pub handle_profile_rollback : Codec → Bytes → EuiccState → Handled
handle_profile_rollback c inner s =
    decoded (c.decode_rollback inner)
      (λ refresh_flag. respond_with c rollback_response (profile_rollback s)) s

-- Nor are the settings of the automatic enabling.
unfoldable pub handle_configure_auto_enable : Codec → Bytes → EuiccState → Handled
handle_configure_auto_enable c inner s =
    decoded (c.decode_auto_enable inner)
      (λ settings. respond_with c auto_enable_response (configure_auto_enable s)) s

unfoldable pub handle_enable_using_dd : Codec → EuiccState → Handled
handle_enable_using_dd c s = respond_with c dd_response (enable_using_dd s)

unfoldable pub handle_get_addresses : Codec → EuiccState → Handled
handle_get_addresses c s = (encoded (c.encode (addresses (get_euicc_configured_addresses s))), s)

-- `self.es10a.set_default_smdp`: the handler has no such method, so that a request that decodes ends
-- in an AttributeError.
unfoldable pub handle_set_dp_address : Codec → Bytes → EuiccState → Handled
handle_set_dp_address c inner s = decoded (c.decode_address inner) (λ address. (raised, s)) s
