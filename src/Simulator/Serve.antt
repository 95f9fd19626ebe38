-- ===== src/Simulator/Serve.antt =====
-- The connection handler of app/transport/tcp_server.py over the dispatcher of
-- app/services/apdu_dispatcher.py: what a client can do to an eUICC.
use euicc_simulator.Prelude.{ℕ, ◌+◌, Bool, true, false, List, [], ◌∷◌, Bytes, Text, if◌then◌else◌}
use euicc_simulator.Prelude.Outcome.{Outcome}
use euicc_simulator.Euicc.{EuiccState, new_euicc}
use euicc_simulator.Euicc.Valid.{IsValid}
use euicc_simulator.Es10b.Engine.{Engine}
use euicc_simulator.Es10b.Sessions.{Vouched, SessionIsValid}
use euicc_simulator.Dispatcher.Codec.{Codec}
use euicc_simulator.Dispatcher.Routes.{Draws, dispatch}
use euicc_simulator.Dispatcher.Refines.{dispatch-Reachable}
use euicc_simulator.Simulator.Reachability.{
  Reachable, start, Reachable-IsValid, Reachable-SessionIsValid,
}
use euicc_simulator.Transport.TcpServer.{ApduConnectionHandler, new_handler, handle_read}
use euicc_simulator.Transport.Serving.{handle_read_keeps}

-- The eUICC, and the number of calls of the dispatcher so far; the calls draw from a sequence.
abbrev pub Card : Type 0
Card = EuiccState × ℕ

module _ (c : Codec) (e : Engine) (draws : ℕ → Draws) where
  unfoldable pub dispatch_next : Text → Bytes → Card → Outcome Bytes × Card
  dispatch_next eid command (s, calls) =
      let (outcome, s') = dispatch c e (draws calls) eid command s in (outcome, (s', calls + 1))

  -- `while self._running`, over the reads of one connection.
  unfoldable pub serve : List Bytes → ApduConnectionHandler × Card → ApduConnectionHandler × Card
  serve [] w = w
  serve (incoming ∷ reads) w =
      let ((responses, goes_on), w') = handle_read dispatch_next incoming w in
      let rest = serve reads w' in if goes_on then rest else w'

  abbrev CardReachable : Text → Card → Type 0
  CardReachable card (s, calls) = Reachable e card s

  dispatch_next-CardReachable :
      (card eid : Text) (command : Bytes) (w : Card)
      → CardReachable card w
      → CardReachable card (dispatch_next eid command w).1
  unfolding dispatch_next
  dispatch_next-CardReachable card eid command (s, calls) r =
      dispatch-Reachable c e (draws calls) card eid command s r

  if_keeps {ℓ} :
      {W : Type ℓ} (Q : W → Type 0) (b : Bool) (x y : W) → Q x → Q y → Q (if b then x else y)
  if_keeps Q true x y qx qy = qx
  if_keeps Q false x y qx qy = qy

  serve-CardReachable :
      (card : Text) (reads : List Bytes) (h : ApduConnectionHandler) (w : Card)
      → CardReachable card w
      → CardReachable card (serve reads (h, w)).1
  unfolding serve
  serve-CardReachable card [] h w r = r
  serve-CardReachable card (incoming ∷ reads) h w r =
      let ((responses, goes_on), (h', w')) = handle_read dispatch_next incoming (h, w) in
      let next : CardReachable card w' =
        handle_read_keeps dispatch_next (CardReachable card) (dispatch_next-CardReachable card)
          incoming h w r in
      if_keeps (λ (v : ApduConnectionHandler × Card). CardReachable card v.1) goes_on
        (serve reads (h', w')) (h', w') (serve-CardReachable card reads h' w' next) next

  -- A client that connects to a new eUICC and sends any bytes in any reads leaves a valid state, and a
  -- session, if there is one, that is authenticated only with a key vouched for.
  pub serve-IsValid :
      (card : Text) (reads : List Bytes)
      → let (h, (s, calls)) = serve reads (new_handler card, (new_euicc card, 0)) in
        IsValid s × SessionIsValid (Vouched e) s.active_session
  serve-IsValid card reads =
      let s = (serve reads (new_handler card, (new_euicc card, 0))).1.0 in
      let r : Reachable e card s =
        serve-CardReachable card reads (new_handler card) (new_euicc card, 0) start in
      (Reachable-IsValid e card s r, Reachable-SessionIsValid e card s r)
