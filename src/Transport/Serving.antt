-- ===== src/Transport/Serving.antt =====
-- app/transport/tcp_server.py: what a connection can do to the state behind the dispatcher.
use euicc_simulator.Prelude.{
  ◌≡◌, ◌⊎◌, inl, inr, refl, sym, subst, Bool, List, [], ◌∷◌, Bytes, Text, ◌==◌, Bool-cases,
}
use euicc_simulator.Prelude.Outcome.{Outcome, returned, raised}
use euicc_simulator.Transport.ApduCodec.{ApduCommand}
use euicc_simulator.Transport.TcpProtocol.{add_segment, get_complete, feed}
use euicc_simulator.Transport.TcpServer.{
  ApduConnectionHandler, handle_store_data, handle_apdu, write, handle_all, handle_read,
}

module _ {S : Type 0} (dispatch : Text → Bytes → S → Outcome Bytes × S) where
  -- A command leaves the state, or hands it to the dispatcher once.
  abbrev pub Served : Text → S → S → Type 0
  Served eid s t = (t ≡ s) ⊎ ((command : Bytes) × (t ≡ (dispatch eid command s).1))

  handle_store_data-Served :
      (cmd : ApduCommand) (h : ApduConnectionHandler) (s : S)
      → Served h.eid s (handle_store_data dispatch cmd (h, s)).1.1
  unfolding handle_store_data
  handle_store_data-Served cmd h s = elim (Bool-cases h.isd_selected) [
    | inr closed ↦ rw closed (inl refl)
    | inl open_ ↦ elim (Bool-cases (add_segment cmd h.segment_buffer).0.0) [
      | inr more ↦ rw (open_, more) (inl refl)
      | inl whole ↦
          rw (open_, whole) (inr (get_complete (add_segment cmd h.segment_buffer).1, refl))
    ]
  ]

  handle_apdu-Served :
      (cmd : ApduCommand) (h : ApduConnectionHandler) (s : S)
      → Served h.eid s (handle_apdu dispatch cmd (h, s)).1.1
  unfolding handle_apdu
  handle_apdu-Served cmd h s = elim (Bool-cases (cmd.ins == 0xA4)) [
    | inl select ↦ rw select (inl refl)
    | inr a ↦ elim (Bool-cases (cmd.ins == 0xE2)) [
      | inl store ↦ rw (a, store) (handle_store_data-Served cmd h s)
      | inr b ↦ elim (Bool-cases (cmd.ins == 0xCA)) [
        | inl get ↦ rw (a, b, get) (inl refl)
        | inr d ↦ elim (Bool-cases (cmd.ins == 0xC0)) [
          | inl get ↦ rw (a, b, d, get) (inl refl)
          | inr e ↦ rw (a, b, d, e) (inl refl)
        ]
      ]
    ]
  ]

  -- What every call of the dispatcher keeps, a connection keeps.
  module _ (P : S → Type 0)
      (kept : (eid : Text) (command : Bytes) (s : S) → P s → P (dispatch eid command s).1) where
    Served-keeps : (eid : Text) (s t : S) → Served eid s t → P s → P t
    Served-keeps eid s t (inl same) p = subst P (sym same) p
    Served-keeps eid s t (inr (command, next)) p = subst P (sym next) (kept eid command s p)

    write_keeps {κ} :
        {W : Type κ} (Q : W → Type 0) (o : Outcome Bytes) (w : W) (rest : (List Bytes × Bool) × W)
        → Q w
        → Q rest.1
        → Q (write o w rest).1
    write_keeps Q raised w rest q r = q
    write_keeps Q (returned response) w ((responses, goes_on), w') q r = r

    handle_all_keeps :
        (cmds : List ApduCommand) (h : ApduConnectionHandler) (s : S)
        → P s
        → P (handle_all dispatch cmds (h, s)).1.1
    unfolding handle_all
    handle_all_keeps [] h s p = p
    handle_all_keeps (cmd ∷ cmds) h s p =
        let w = handle_apdu dispatch cmd (h, s) in
        let next = Served-keeps h.eid s w.1.1 (handle_apdu-Served cmd h s) p in
        write_keeps (λ w. P w.1) w.0 w.1 (handle_all dispatch cmds w.1) next
          (handle_all_keeps cmds w.1.0 w.1.1 next)

    pub handle_read_keeps :
        (incoming : Bytes) (h : ApduConnectionHandler) (s : S)
        → P s
        → P (handle_read dispatch incoming (h, s)).1.1
    unfolding handle_read
    handle_read_keeps incoming h s p =
        handle_all_keeps (feed incoming h.frame_parser).0
          (record h { frame_parser = (feed incoming h.frame_parser).1 }) s p
