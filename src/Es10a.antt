-- ===== src/Es10a.antt =====
-- app/es10/es10a.py: the configured addresses.
use euicc_simulator.Prelude.{ℕ, Text}
use euicc_simulator.Euicc.{EuiccState}

-- The default SM-DP+ address and the root SM-DS address.
unfoldable pub get_euicc_configured_addresses : EuiccState → Text × Text
get_euicc_configured_addresses s = (s.default_smdp_address, s.root_ds_address)

unfoldable pub set_default_dp_address : Text → EuiccState → ℕ × EuiccState
set_default_dp_address address s = (0, record s { default_smdp_address = address })
