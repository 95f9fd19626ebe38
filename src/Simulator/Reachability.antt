-- ===== src/Simulator/Reachability.antt =====
-- The states that an eUICC comes to by calls of the handlers of app/es10.
use euicc_simulator.Prelude.{◌≡◌, subst, Option, some, true, Bytes, Text}
use euicc_simulator.Prelude.Outcome.{returned}
use euicc_simulator.Euicc.{DownloadSession, EuiccState, new_euicc}
use euicc_simulator.Euicc.Valid.{IsValid, IsValid-new_euicc}
use euicc_simulator.Es10b.Engine.{ResultData, Engine}
use euicc_simulator.Es10b.Load.{Bpp, installed, load_bound_profile_package}
use euicc_simulator.Es10b.Sessions.{Vouched, SessionIsValid}
use euicc_simulator.Es10b.Installs.{load_bound_profile_package_installs}
use euicc_simulator.Simulator.{Command, perform}
use euicc_simulator.Simulator.Validity.{perform-IsValid}
use euicc_simulator.Simulator.Authenticity.{perform-SessionIsValid}

pub data Reachable (e : Engine) (eid : Text) : EuiccState → Type 0 where
  start : Reachable e eid (new_euicc eid)
  step : (c : Command) (s : EuiccState) → Reachable e eid s → Reachable e eid (perform e c s)

-- From a new eUICC, any calls of the handlers in any order, those that raise included, lead to a
-- valid state: at most one profile is enabled, the numbers of the notifications rise and none passes
-- the counter, no two associations share an identifier, and there are no more profiles than places.
pub Reachable-IsValid : (e : Engine) (eid : Text) (s : EuiccState) → Reachable e eid s → IsValid s
Reachable-IsValid e eid _ start = IsValid-new_euicc eid
Reachable-IsValid e eid _ (step c s r) = perform-IsValid e c s (Reachable-IsValid e eid s r)

pub Reachable-SessionIsValid :
    (e : Engine) (eid : Text) (s : EuiccState)
    → Reachable e eid s
    → SessionIsValid (Vouched e) s.active_session
unfolding new_euicc
Reachable-SessionIsValid e eid _ start = tt
Reachable-SessionIsValid e eid _ (step c s r) =
    perform-SessionIsValid e (Vouched e) (λ key v. v) c s (Reachable-SessionIsValid e eid s r)

pub SessionIsValid-prepared :
    (P : Option Bytes → Type 0) (o : Option DownloadSession) (d : DownloadSession)
    → SessionIsValid P o
    → o ≡ some d
    → d.prepared ≡ true
    → P d.server_public_key
SessionIsValid-prepared P o d v here ready =
    let v' : SessionIsValid P (some d) = subst (SessionIsValid P) here v in v'.0 (v'.1 ready)

-- In every state that calls lead to from a new eUICC, a profile is installed only in a prepared
-- session whose server key comes from a certificate that validates under a trusted CI identifier,
-- and has verified a signature.
pub Reachable-install-Vouched :
    (e : Engine) (eid : Text) (s t : EuiccState) (bpp : Bpp) (random : Bytes) (r : ResultData)
    (signature : Bytes)
    → Reachable e eid s
    → load_bound_profile_package e bpp random s ≡ (returned (installed r signature), t)
    → (d : DownloadSession) × (s.active_session ≡ some d)
      × (d.prepared ≡ true)
      × Vouched e d.server_public_key
Reachable-install-Vouched e eid s t bpp random r signature reached h =
    let ((d, here, ready), _) =
      load_bound_profile_package_installs e bpp random s t r signature h in
    let v = Reachable-SessionIsValid e eid s reached in
    (d, here, ready, SessionIsValid-prepared (Vouched e) s.active_session d v here ready)
