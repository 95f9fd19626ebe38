-- ===== src/Dispatcher/Refines.antt =====
-- `dispatch` of app/services/apdu_dispatcher.py makes the calls that the table of the tags names.
use euicc_simulator.Prelude.{
  ℕ, ap, ◌∙◌, arith, List, map, ◌∷◌, Option-cases, ◌≡◌, ◌⊎◌, inl, inr, refl, sym, subst, Option,
  none, some, [], Bytes, Text, ◌==◌, Bool-cases,
}
use euicc_simulator.Prelude.Outcome.{returned, raised}
use euicc_simulator.Euicc.{EuiccState}
use euicc_simulator.Es10b.Engine.{Engine}
use euicc_simulator.Services.Tlv.{identify_command}
use euicc_simulator.Simulator.{Command, perform}
use euicc_simulator.Simulator.Reachability.{Reachable, step}
use euicc_simulator.Dispatcher.Codec.{Codec, Handled}
use euicc_simulator.Dispatcher.Requests.{ran, calls, call_for, commanded}
use euicc_simulator.Dispatcher.Routes.{
  Route, branches, route_in, Draws, follow_route, execute, concluded, dispatch_identified, dispatch,
}
use euicc_simulator.Dispatcher.Follows.{asks, follow-ran, calls-branches}

concluded_state : (tag : ℕ) (h : Handled) → (concluded tag h).1 ≡ h.1
concluded_state tag (raised, s) = refl
concluded_state tag (returned none, s) = refl
concluded_state tag (returned (some b), s) = refl

-- One step of the machine from `s` to `t`, or none.
abbrev pub Steps : Engine → EuiccState → EuiccState → Type 0
Steps e s t = (t ≡ s) ⊎ ((cmd : Command) × (t ≡ perform e cmd s))

module _ (c : Codec) (e : Engine) (drawn : Draws) where
  follow_route-ran :
      (bs : List (ℕ × Route)) (tag : ℕ) (inner : Bytes) (s : EuiccState)
      → (follow_route c e drawn (route_in tag bs) inner s).1
        ≡ ran e (call_for (map (λ b. (b.0, asks c drawn b.1)) bs) tag inner) s
  unfolding route_in call_for
  follow_route-ran [] tag inner s = refl
  follow_route-ran ((t, route) ∷ bs) tag inner s = elim (Bool-cases (tag == t)) [
    | inl here ↦ rw here (follow-ran c e drawn route inner s)
    | inr other ↦ rw other (follow_route-ran bs tag inner s)
  ]

  execute-ran :
      (tag : ℕ) (inner : Bytes) (s : EuiccState)
      → (execute c e drawn tag inner s).1 ≡ ran e (call_for (calls c drawn) tag inner) s
  unfolding execute
  execute-ran tag inner s =
      follow_route-ran branches tag inner s
      ∙ ap (λ ks. ran e (call_for ks tag inner) s) (sym (calls-branches c drawn))

  dispatch_identified-ran :
      (o : Option (ℕ × Text × Bytes)) (s : EuiccState)
      → (dispatch_identified c e drawn o s).1 ≡ ran e (commanded c drawn o) s
  unfolding call_for
  dispatch_identified-ran none s = refl
  dispatch_identified-ran (some (tag, name, inner)) s = elim (Bool-cases (tag == 0)) [
    | inl unknown ↦ let zero_tag : tag ≡ 0 = ground arith in rw zero_tag refl
    | inr known ↦ rw known (concluded_state tag _ ∙ execute-ran tag inner s)
  ]

  -- For any bytes of a command, the state that `dispatch` leaves, returning or raising, is that of the
  -- one call which the table of the tags has for the command's tag and its decoded request, with what
  -- the call draws; and it is the state before where the command is not identified, its tag is no
  -- branch's or a query's, or its request does not decode.
  pub dispatch-ran :
      (eid : Text) (command : Bytes) (s : EuiccState)
      → (dispatch c e drawn eid command s).1
        ≡ ran e (commanded c drawn (identify_command command)) s
  unfolding dispatch
  dispatch-ran eid command s = dispatch_identified-ran (identify_command command) s

  -- One step of the machine or none.
  pub dispatch-Steps :
      (eid : Text) (command : Bytes) (s : EuiccState)
      → Steps e s (dispatch c e drawn eid command s).1
  dispatch-Steps eid command s =
      let did = dispatch-ran eid command s in
      elim (Option-cases (commanded c drawn (identify_command command))) [
        | inl no_call ↦ inl (did ∙ ap (λ o. ran e o s) no_call)
        | inr (cmd, call) ↦ inr (cmd, did ∙ ap (λ o. ran e o s) call)
      ]

  pub dispatch-Reachable :
      (card : Text) (eid : Text) (command : Bytes) (s : EuiccState)
      → Reachable e card s
      → Reachable e card (dispatch c e drawn eid command s).1
  dispatch-Reachable card eid command s r = elim (dispatch-Steps eid command s) [
    | inl same ↦ subst (Reachable e card) (sym same) r
    | inr (cmd, next) ↦ subst (Reachable e card) (sym next) (step cmd s r)
  ]
