-- ===== src/Es10bIot/Certs.antt =====
-- `get_certs` and `get_certs_sgp32` of app/es10/es10b_iot.py.
use euicc_simulator.Prelude.{Option, Bytes}
use euicc_simulator.Es10b.Engine.{Engine}

-- The EUM's certificate and the eUICC's.
unfoldable pub get_certs : Engine → Bytes × Bytes
get_certs e = (e.eum_certificate, e.euicc_certificate)

-- The identifier of the request is not read.
unfoldable pub get_certs_sgp32 : Engine → Option Bytes → Bytes × Bytes
get_certs_sgp32 e euicc_ci_pkid = (e.eum_certificate, e.euicc_certificate)
