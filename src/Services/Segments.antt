-- ===== src/Services/Segments.antt =====
-- `process_apdu` of app/services/apdu_handler.py on the segments of a command.
use euicc_simulator.Prelude.{
  ℕ, suc, ◌+◌, ◌≡◌, ◌≢◌, refl, true, false, some, [], ◌∷◌, ◌++◌, Bytes, arith, bytes_eq_refl,
  has_bit, length, take_all, ltb, ◌==◌,
}
use euicc_simulator.Services.ApduHandler.{
  isdr_aid, sw_ok, cleared, ApduProcessor, add_block, get_complete_data, process_store_data,
  process_apdu,
}
use euicc_simulator.Transport.TcpProtocol.{join}
use euicc_simulator.Transport.Stream.{Segment}

-- A STORE DATA command with its Lc.
abbrev pub apdu_of : Segment → Bytes
apdu_of g = 0x80 ∷ 0xE2 ∷ g.p1 ∷ g.p2 ∷ length g.payload ∷ g.payload

process_apdu-apdu_of :
    (p1 p2 x : ℕ) (xs : Bytes) (p : ApduProcessor)
    → process_apdu (0x80 ∷ 0xE2 ∷ p1 ∷ p2 ∷ length (x ∷ xs) ∷ x ∷ xs) p
      ≡ process_store_data p1 p2 (x ∷ xs) p
unfolding process_apdu
process_apdu-apdu_of p1 p2 x xs p =
    let a : ltb (suc (suc (suc (suc (suc (length (x ∷ xs))))))) 4 ≡ false = ground arith in
    let b : ltb 5 (suc (suc (suc (suc (suc (length (x ∷ xs))))))) ≡ true = ground arith in
    rw (a, b, take_all (length (x ∷ xs)) (x ∷ xs) (omega arith)) refl

pub process_middle :
    (p1 p2 : ℕ) (payload : Bytes) (p : ApduProcessor)
    → p.selected_aid ≡ some isdr_aid
    → p2 ≡ p.segment_buffer.expected_block
    → has_bit p1 0x80 ≡ false
    → process_store_data p1 p2 payload p ≡ (
      sw_ok,
      record p {
        segment_buffer = record p.segment_buffer {
          segments = p.segment_buffer.segments ++ payload ∷ [];
          expected_block = p.segment_buffer.expected_block + 1;
        };
      },
    )
unfolding process_store_data add_block
process_middle p1 p2 payload p sel here more =
    let same : (p2 == p.segment_buffer.expected_block) ≡ true = ground arith in
    simp (sel, same, more, bytes_eq_refl) refl

pub process_last :
    (p1 p2 : ℕ) (payload : Bytes) (p : ApduProcessor)
    → p.selected_aid ≡ some isdr_aid
    → p2 ≡ p.segment_buffer.expected_block
    → has_bit p1 0x80 ≡ true
    → process_store_data p1 p2 payload p ≡ (
      join (p.segment_buffer.segments ++ payload ∷ []) ++ sw_ok,
      record p { segment_buffer = cleared },
    )
unfolding process_store_data add_block get_complete_data
process_last p1 p2 payload p sel here last =
    let same : (p2 == p.segment_buffer.expected_block) ≡ true = ground arith in
    simp (sel, same, last, bytes_eq_refl) refl

pub process_segment :
    (g : Segment) (p : ApduProcessor)
    → g.payload ≢ []
    → process_apdu (apdu_of g) p ≡ process_store_data g.p1 g.p2 g.payload p
process_segment g p ne = by_payload g.payload ne
  where
    by_payload :
        (b : Bytes)
        → b ≢ []
        → process_apdu (0x80 ∷ 0xE2 ∷ g.p1 ∷ g.p2 ∷ length b ∷ b) p
          ≡ process_store_data g.p1 g.p2 b p
    by_payload [] empty = absurd (empty refl)
    by_payload (x ∷ xs) empty = process_apdu-apdu_of g.p1 g.p2 x xs p
