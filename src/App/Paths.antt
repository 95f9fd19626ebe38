-- ===== src/App/Paths.antt =====
-- The two ways to an eUICC: the endpoint for APDUs of app/main.py, over the APDU processor of
-- app/services/apdu_handler.py, and the connection handler of app/transport/tcp_server.py.
use euicc_simulator.Prelude.{
  ◌+◌, ◌-◌, ◌≤◌, ◌≡◌, ◌≢◌, refl, sym, ap, subst, ◌∙◌, Bool, true, false, some, List, [], ◌∷◌, ◌++◌,
  append_assoc, append-nil, Bytes, Text, arith, bytes_eq, bytes_eq_refl, has_bit, hex, length,
  length-append, take, take-append, ◌&&◌, drop, drop-append, ltb,
}
use euicc_simulator.Prelude.Outcome.{Outcome, returned}
use euicc_simulator.Services.ApduHandler.{isdr_aid, sw_ok, cleared}
use euicc_simulator.Services.Segments.{apdu_of, process_middle, process_last, process_segment}
use euicc_simulator.Transport.TcpProtocol.{join, empty_segments}
use euicc_simulator.Transport.TcpServer.{ApduConnectionHandler, handle_read}
use euicc_simulator.Transport.Stream.{Segment, stream, NonEmpty}
use euicc_simulator.Transport.Session.{join_snoc, Blocks, replies, content, handle_read-stream}
use euicc_simulator.Dispatcher.Codec.{Codec}
use euicc_simulator.Dispatcher.Routes.{Draws, dispatch}
use euicc_simulator.Manager.{EuiccInstance}
use euicc_simulator.App.{DebugReply, response, is_es10, hex_reply, debug_instance}

and_true : (a b : Bool) → a ≡ true → b ≡ true → (a && b) ≡ true
and_true a b h k = ground arith

-- A response of data and 9000.
es10_response :
    (xs : Bytes)
    → xs ≢ []
    → (is_es10 (xs ++ sw_ok) ≡ true) × (take (length (xs ++ sw_ok) - 2) (xs ++ sw_ok) ≡ xs)
es10_response [] ne = absurd (ne refl)
es10_response (x ∷ xs) ne =
    let n : length ((x ∷ xs) ++ sw_ok) - 2 ≡ length (x ∷ xs) =
      omega (arith, length-append (x ∷ xs) sw_ok) in
    let long : ltb 2 (length ((x ∷ xs) ++ sw_ok)) ≡ true = ground (arith, length-append xs sw_ok) in
    let tail : bytes_eq (drop (length ((x ∷ xs) ++ sw_ok) - 2) ((x ∷ xs) ++ sw_ok)) sw_ok ≡ true =
      ap (λ k. bytes_eq (drop k ((x ∷ xs) ++ sw_ok)) sw_ok) n
      ∙ ap (λ r. bytes_eq r sw_ok) (drop-append (x ∷ xs) sw_ok)
      ∙ bytes_eq_refl sw_ok in
    (
      and_true (ltb 2 (length ((x ∷ xs) ++ sw_ok))) _ long tail,
      ap (λ k. take k ((x ∷ xs) ++ sw_ok)) n ∙ take-append (x ∷ xs) sw_ok,
    )

nonempty_append : (xs ys : Bytes) → ys ≢ [] → xs ++ ys ≢ []
nonempty_append [] ys ne e = ne e
nonempty_append (x ∷ xs) ys ne e = absurd (cc)

-- The instance once its processor has taken a segment that is not the last.
abbrev with_segment : Bytes → EuiccInstance → EuiccInstance
with_segment payload i = record i {
  apdu = record i.apdu {
    segment_buffer = record i.apdu.segment_buffer {
      segments = i.apdu.segment_buffer.segments ++ payload ∷ [];
      expected_block = i.apdu.segment_buffer.expected_block + 1;
    };
  };
}

-- What the requests are answered: 9000 for each segment but the last, then the response.
abbrev pub http_replies : List Segment → Outcome Bytes → List (Outcome DebugReply)
http_replies [] r = []
http_replies (g ∷ []) r = hex_reply r ∷ []
http_replies (g ∷ h ∷ gs) r = returned (response (hex sw_ok)) ∷ http_replies (h ∷ gs) r

joined_nothing : (b : Bytes) → join [] ++ b ≡ b
unfolding join
joined_nothing b = refl

module _ (c : Codec) (drawn : Draws) (eid : Text) where
  debug_middle :
      (g : Segment) (i : EuiccInstance)
      → g.payload ≢ []
      → i.apdu.selected_aid ≡ some isdr_aid
      → g.p2 ≡ i.apdu.segment_buffer.expected_block
      → has_bit g.p1 0x80 ≡ false
      → debug_instance c drawn eid (apdu_of g) i
        ≡ (returned (response (hex sw_ok)), with_segment g.payload i)
  unfolding debug_instance
  debug_middle g i ne sel here more =
      let ran =
        process_segment g i.apdu ne ∙ process_middle g.p1 g.p2 g.payload i.apdu sel here more in
      rw ran refl

  debug_last :
      (g : Segment) (i : EuiccInstance)
      → g.payload ≢ []
      → i.apdu.selected_aid ≡ some isdr_aid
      → g.p2 ≡ i.apdu.segment_buffer.expected_block
      → has_bit g.p1 0x80 ≡ true
      → debug_instance c drawn eid (apdu_of g) i ≡ (
          let (r, s) =
            dispatch c i.pki drawn eid (join i.apdu.segment_buffer.segments ++ g.payload) i.euicc in
          (hex_reply r, record i { apdu = record i.apdu { segment_buffer = cleared }; euicc = s }))
  unfolding debug_instance
  debug_last g i ne sel here last =
      let command = join (i.apdu.segment_buffer.segments ++ g.payload ∷ []) in
      let ran =
        process_segment g i.apdu ne ∙ process_last g.p1 g.p2 g.payload i.apdu sel here last in
      let (es10, whole) = es10_response command (λ e.
        nonempty_append (join i.apdu.segment_buffer.segments) g.payload ne
          (sym (join_snoc i.apdu.segment_buffer.segments g.payload) ∙ e)) in
      rw (ran, es10, whole, join_snoc i.apdu.segment_buffer.segments g.payload) refl

  -- The segments of one command, each in a request of its own: the replies, and the instance.
  unfoldable pub debug_each :
      List Segment → EuiccInstance → List (Outcome DebugReply) × EuiccInstance
  debug_each [] i = ([], i)
  debug_each (g ∷ gs) i =
      let (reply, i') = debug_instance c drawn eid (apdu_of g) i in
      let (replies, i'') = debug_each gs i' in (reply ∷ replies, i'')

  debug_each-cons :
      (g : Segment) (gs : List Segment) (i i' : EuiccInstance) (reply : Outcome DebugReply)
      → debug_instance c drawn eid (apdu_of g) i ≡ (reply, i')
      → debug_each (g ∷ gs) i ≡ (reply ∷ (debug_each gs i').0, (debug_each gs i').1)
  unfolding debug_each
  debug_each-cons g gs i i' reply h = rw h refl

  debug_each-nil : (i : EuiccInstance) → debug_each [] i ≡ ([], i)
  unfolding debug_each
  debug_each-nil i = refl

  debug_each-segments :
      (gs : List Segment) (i : EuiccInstance)
      → NonEmpty gs
      → i.apdu.selected_aid ≡ some isdr_aid
      → Blocks i.apdu.segment_buffer.expected_block gs
      → debug_each gs i ≡ (
          let (r, s) =
            dispatch c i.pki drawn eid
              (join i.apdu.segment_buffer.segments ++ content gs)
              i.euicc in
          (
            http_replies gs r,
            record i { apdu = record i.apdu { segment_buffer = cleared }; euicc = s },
          ))
  debug_each-segments [] i ne sel b = absurd (omega arith)
  debug_each-segments (g ∷ []) i ne sel b =
      debug_each-cons g [] i _ _ (debug_last g i ne.0 sel b.0 b.1)
      ∙ rw (debug_each-nil, append-nil g.payload) refl
  debug_each-segments (g ∷ k ∷ gs) i ne sel b =
      let rest : join (i.apdu.segment_buffer.segments ++ g.payload ∷ []) ++ content (k ∷ gs)
          ≡ join i.apdu.segment_buffer.segments ++ content (g ∷ k ∷ gs) =
        rw (join_snoc i.apdu.segment_buffer.segments g.payload)
          (append_assoc (join i.apdu.segment_buffer.segments) g.payload (content (k ∷ gs))) in
      debug_each-cons g (k ∷ gs) i (with_segment g.payload i) _ (debug_middle g i ne.0 sel b.0 b.1)
      ∙ rw (debug_each-segments (k ∷ gs) (with_segment g.payload i) ne.1 sel b.2, rest) refl

  -- The two ways to an eUICC are equivalent: a command in segments has one outcome `r`, whether it is
  -- sent over TCP, back to back and read at once, or over HTTP, each segment with its Lc in a request
  -- of its own, and drawing the same. Both leave the eUICC in the same state, both acknowledge each
  -- segment but the last, and TCP gives the response where HTTP gives it in hexadecimal. The ISD-R is
  -- selected on both and no segment is pending; the segments are non-empty and numbered from zero,
  -- only the last has the last-block bit, and the bytes fit in the frame buffer.
  pub debug_each-handle_read :
      (gs : List Segment) (bytes : Bytes) (h : ApduConnectionHandler) (i : EuiccInstance)
      → stream gs ≡ some bytes
      → NonEmpty gs
      → Blocks 0 gs
      → h.isd_selected ≡ true
      → h.segment_buffer ≡ empty_segments
      → h.frame_parser.buffer ≡ []
      → length bytes ≤ h.frame_parser.max_buffer
      → h.eid ≡ eid
      → i.apdu.selected_aid ≡ some isdr_aid
      → i.apdu.segment_buffer ≡ cleared
      → let (responses, (h', t)) = handle_read (dispatch c i.pki drawn) bytes (h, i.euicc) in
        let (answers, i') = debug_each gs i in
        (i'.euicc ≡ t)
        × ((r : Outcome Bytes) × (responses ≡ replies gs r) × (answers ≡ http_replies gs r))
  debug_each-handle_read gs bytes h i made ne blocks sel fresh idle fits named chosen clear =
      let (written, state, _, _) =
        handle_read-stream (dispatch c i.pki drawn) gs bytes h i.euicc made ne blocks sel fresh idle
          fits in
      let numbered : Blocks i.apdu.segment_buffer.expected_block gs =
        subst (λ b. Blocks b.expected_block gs) (sym clear) blocks in
      let command : join i.apdu.segment_buffer.segments ++ content gs ≡ content gs =
        ap (λ b. join b.segments ++ content gs) clear ∙ joined_nothing (content gs) in
      let ran = debug_each-segments gs i ne chosen numbered in
      let here =
        ap (λ d. dispatch c i.pki drawn eid d i.euicc) command
        ∙ ap (λ k. dispatch c i.pki drawn k (content gs) i.euicc) (sym named) in
      (
        ap (λ x. x.1.euicc) ran ∙ ap (λ x. x.1) here ∙ sym state,
        (
          (dispatch c i.pki drawn h.eid (content gs) i.euicc).0,
          written,
          ap (λ x. x.0) ran ∙ ap (λ x. http_replies gs x.0) here,
        ),
      )
