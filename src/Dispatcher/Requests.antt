-- ===== src/Dispatcher/Requests.antt =====
-- What each command of app/services/apdu_dispatcher.py asks of the machine of the handlers: by the
-- command's tag, the call that its request stands for, or none for a query.
use euicc_simulator.Prelude.{
  ◌>>=◌, ℕ, Option, none, some, List, [], ◌∷◌, Bytes, Text, ◌==◌, if◌then◌else◌, default, replicate,
}
use euicc_simulator.Euicc.{EuiccState}
use euicc_simulator.Es10b.Engine.{Engine}
use euicc_simulator.Simulator.{Command, perform}
use euicc_simulator.Dispatcher.Codec.{
  AuthenticateRequest, PrepareRequest, CancelRequest, PackageRequest, fields, choice, Codec,
}
use euicc_simulator.Es10b.Load.{Bpp}
use euicc_simulator.Es10c.Reset.{ResetOptions}
use euicc_simulator.Dispatcher.Es10b.{no_server_signed1, no_smdp_signed2}
use euicc_simulator.Dispatcher.Iot.{with_tokens}
use euicc_simulator.Dispatcher.Routes.{Draws}

-- The state after a call, or after none.
abbrev pub ran : Engine → Option Command → EuiccState → EuiccState
ran e none s = s
ran e (some call) s = perform e call s

-- A package that is no dictionary is not run.
abbrev pub package_call : (ℕ → ℕ) → PackageRequest → Option Command
package_call tokens (fields package_of) = some (Command.load_iot (package_of tokens))
package_call tokens (choice name) = none

abbrev pub query : Bytes → Option Command
query inner = none

abbrev pub authenticate_call : AuthenticateRequest → Option Command
authenticate_call q = some (
    Command.authenticate (default q.server_signed1 no_server_signed1)
      (default q.server_signature1 []) (default q.ci_pkid_to_be_used [])
      (default q.server_certificate []) q.ctx_params1 none)

abbrev pub prepare_call : Bytes × Bytes → PrepareRequest → Option Command
prepare_call otpk q = some (
    Command.prepare (default q.smdp_signed2 no_smdp_signed2) (default q.smdp_signature2 [])
      q.hash_cc q.smdp_certificate none otpk)

abbrev pub load_call : Bytes → Bpp → Option Command
load_call iccid bpp = some (Command.load bpp iccid)

abbrev pub cancel_call : CancelRequest → Option Command
cancel_call q =
    some (Command.cancel (default q.transaction_id (replicate 16 0)) (default q.reason 0))

abbrev pub reset_call : ResetOptions → Option Command
reset_call options = some (Command.reset options)

module _ (c : Codec) (drawn : Draws) where
  abbrev pub calls : List (ℕ × (Bytes → Option Command))
  calls =
      (0xBF20, query)
      ∷ (0xBF22, query)
      ∷ (0xBF2E, λ inner. some (Command.challenge drawn.challenge))
      ∷ (0xBF38, λ inner. c.decode_authenticate inner >>= authenticate_call)
      ∷ (0xBF21, λ inner. c.decode_prepare inner >>= prepare_call drawn.otpk)
      ∷ (0xBF36, λ inner. c.decode_bpp inner >>= load_call drawn.iccid)
      ∷ (0xBF41, λ inner. c.decode_cancel inner >>= cancel_call)
      ∷ (0xBF28, query)
      ∷ (0xBF2F, λ inner. c.decode_remove inner >>= (λ n. some (Command.remove (default n 0))))
      ∷ (0xBF2B, query)
      ∷ (0xBF43, query)
      ∷ (0xBF3E, query)
      ∷ (0xBF2D, query)
      ∷ (0xBF31, λ inner. c.decode_enable inner >>= (λ q. some (Command.enable q.iccid q.isdp_aid)))
      ∷ (
        0xBF32,
        λ inner. c.decode_disable inner >>= (λ q. some (Command.disable q.iccid q.isdp_aid)),
      )
      ∷ (0xBF33, λ inner. c.decode_delete inner >>= (λ q. some (Command.delete q.iccid q.isdp_aid)))
      ∷ (0xBF34, λ inner. c.decode_reset inner >>= reset_call)
      ∷ (
        0xBF29,
        λ inner.
            c.decode_nickname inner
            >>= (λ q. some (Command.nickname (default q.iccid []) (default q.profile_nickname []))),
      )
      ∷ (0xBF58, λ inner. c.decode_rollback inner >>= (λ flag. some Command.rollback))
      ∷ (0xBF59, query)
      ∷ (0xBF5A, query)
      ∷ (0xBF3C, query)
      ∷ (0xBF3F, query)
      ∷ (0xBF50, λ inner. c.decode_package inner >>= package_call drawn.tokens)
      ∷ (0xBF52, query)
      ∷ (0xBF55, query)
      ∷ (0xBF56, query)
      ∷ (
        0xBF57,
        λ inner.
            c.decode_initial_eims inner
            >>= (λ configs. some (Command.register_initial (with_tokens drawn.tokens 0 configs))),
      )
      ∷ []

-- The call that a list has for a tag and a request.
unfoldable pub call_for : List (ℕ × (Bytes → Option Command)) → ℕ → Bytes → Option Command
call_for [] tag inner = none
call_for ((t, call) ∷ rest) tag inner = if tag == t then call inner else call_for rest tag inner

-- The call of an identified command. A command that is not identified, or whose tag is 0, has none.
abbrev pub commanded : Codec → Draws → Option (ℕ × Text × Bytes) → Option Command
commanded c drawn none = none
commanded c drawn (some (tag, name, inner)) = call_for (calls c drawn) tag inner
