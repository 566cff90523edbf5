-- ===== src/MainPeripheral/Players.antt =====
-- src/clientLib/DreamcastMainPeripheral.cpp: the player in the addresses, over reports of the bus and in
-- the answers.
use dream_pico_port.Prelude.{
  ℕ, ◌+◌, ◌*◌, ◌<◌, ◌≡◌, ◌∙◌, refl, ap, sym, subst, Bool, true, false, ◌&&◌, bit_and, u32, List, [],
  ◌∷◌, Outcome, Outcome-if, Outcome-some, if_both, Option, none, some, arith,
}
use dream_pico_port.Packet.{MaplePacket, reset as reset_packet}
use dream_pico_port.Storage.{Handled}
use dream_pico_port.Timeliner.{
  Phase, idle, write_in_progress, write_failed, write_complete, waiting_for_read_start,
  read_in_progress, read_failed, read_complete, invalid,
}
use dream_pico_port.MapleBus.Events.{Report}
use dream_pico_port.Peripheral.{Functions, Peripheral, handle_packet, not_player_id_addr_mask}
use dream_pico_port.Peripheral.Augmenter.{handle_packet_augmenter}
use dream_pico_port.MainPeripheral.{player_of, set_player_index, handle_main, dispense_packet}
use dream_pico_port.MainPeripheral.Tasks.{
  Action, Main, answer, answer_packet, ask_again, start_over, send_again, answer_dispensed,
  is_crc_invalid, packet_from, react_to, react,
}
use dream_pico_port.MainPeripheral.Resends.{follow, answer_of, followed}
use dream_pico_port.MainPeripheral.Addresses.{
  IsKnown, index, player_of_lem, reset_main-IsKnown, set_player_index-IsKnown, handled_main-IsKnown,
  dispensed_main-IsKnown,
}
use dream_pico_port.MainPeripheral.SubAddresses.{handle_sub-AllPlayed, dispensed_sub-IsKnown}

module _ (functions : Functions) (mask : ℕ) where
  player_small : (sender : ℕ) → player_of sender < 4
  player_small sender = omega (arith, player_of_lem sender)

  unmoved :
      (d e : Main functions)
      → e.base ≡ d.base
      → e.player_index ≡ d.player_index
      → e.sub_peripherals ≡ d.sub_peripherals
      → IsKnown functions mask d
      → IsKnown functions mask e
  unmoved d e base player subs k = record {
    low = k.low;
    player = subst (λ (o : Option ℕ). index o < 4) (sym player) k.player;
    own =
        ap (λ (b : Peripheral functions). b.addr_augmenter) base
        ∙ k.own
        ∙ ap (λ (o : Option ℕ). mask + 64 * index o) (sym player);
    subs = rw (player, subs) k.subs;
  }

  pub dispense_packet-IsKnown :
      (d : Main functions) (p out : MaplePacket)
      → IsKnown functions mask d
      → Outcome (λ x. IsKnown functions mask x.0) (dispense_packet functions d p out)
  unfolding dispense_packet handle_main
  dispense_packet-IsKnown d p out k =
      let counted : Main functions = record d { read_count = u32 (d.read_count + 1) } in
      let k' : IsKnown functions mask counted = record {
        low = k.low;
        player = k.player;
        own = k.own;
        subs = k.subs;
      } in
      let idx = player_of p.frame.sender_addr in
      let taken = set_player_index functions counted idx in
      let handled =
        handled_main-IsKnown functions mask taken p
          (handle_packet functions taken.base p (reset_packet out))
          (set_player_index-IsKnown functions mask counted idx (player_small p.frame.sender_addr)
            k')
          (handle_packet_augmenter functions taken.base p (reset_packet out)) in
      let mine = dispensed_main-IsKnown functions mask _ handled in
      let sub = dispensed_sub-IsKnown functions mask d (reset_packet out) _ k (
        handle_sub-AllPlayed functions _ (bit_and p.frame.recipient_addr not_player_id_addr_mask)
          d.sub_peripherals p (reset_packet out) k.subs) in
      search (Outcome-if, mine, sub, k, k')

  answer-IsKnown :
      (d : Main functions) (write_it : Bool)
      → IsKnown functions mask d
      → IsKnown functions mask (answer functions d write_it).0
  unfolding answer
  answer-IsKnown d true k =
      unmoved d (record d { packet_sent = true; last_packet_out = d.packet_out }) refl refl refl k
  answer-IsKnown d false k = k

  answer_dispensed-IsKnown :
      (x : Option (Main functions × Handled))
      → Outcome (λ x. IsKnown functions mask x.0) x
      → Outcome (λ x. IsKnown functions mask x.0) (answer_dispensed functions x)
  answer_dispensed-IsKnown none k = tt
  answer_dispensed-IsKnown (some (e, h)) k =
      let with_out : Main functions = record e { packet_out = h.out } in
      answer-IsKnown with_out h.handled (unmoved e with_out refl refl refl k)

  send_again-IsKnown :
      (d : Main functions)
      → IsKnown functions mask d
      → IsKnown functions mask (send_again functions d).0
  unfolding send_again
  send_again-IsKnown d k =
      let again : Main functions = record d { packet_out = d.last_packet_out } in
      if_both (λ (x : Main functions × Action). IsKnown functions mask x.0) d.packet_sent
        (answer-IsKnown again true (unmoved d again refl refl refl k)) (answer-IsKnown d false k)

  answer_packet-IsKnown :
      (d : Main functions) (p : MaplePacket)
      → IsKnown functions mask d
      → Outcome (λ x. IsKnown functions mask x.0) (answer_packet functions d p)
  unfolding answer_packet
  answer_packet-IsKnown d p k =
      let e : Main functions = record d { packet_in = p; last_sender = p.frame.sender_addr } in
      let k' : IsKnown functions mask e = record {
        low = k.low;
        player = k.player;
        own = k.own;
        subs = k.subs;
      } in
      let answered =
        answer_dispensed-IsKnown (dispense_packet functions e p e.packet_out)
          (dispense_packet-IsKnown e p e.packet_out k') in
      let resent = send_again-IsKnown e k' in search (Outcome-if, resent, answered)

  react_to-IsKnown :
      (phase : Phase) (d : Main functions) (r : Report)
      → IsKnown functions mask d
      → Outcome (λ x. IsKnown functions mask x.0) (react_to functions phase d r)
  unfolding ask_again start_over
  react_to-IsKnown read_failed d r k =
      let asked = (ask_again functions d).0 in
      if_both (λ (x : Main functions × Action). IsKnown functions mask x.0)
        (is_crc_invalid r.failure_reason && d.base.connected) (unmoved d asked refl refl refl k)
        (reset_main-IsKnown functions mask d k)
  react_to-IsKnown invalid d r k = reset_main-IsKnown functions mask d k
  react_to-IsKnown idle d r k = reset_main-IsKnown functions mask d k
  react_to-IsKnown write_failed d r k = k
  react_to-IsKnown write_complete d r k = k
  react_to-IsKnown write_in_progress d r k = k
  react_to-IsKnown waiting_for_read_start d r k = k
  react_to-IsKnown read_in_progress d r k = k
  react_to-IsKnown read_complete d r k =
      answer_packet-IsKnown d (packet_from functions d r.status) k

  followed-IsKnown :
      (rest : Main functions → Option MaplePacket → Option (Main functions × Option MaplePacket))
      (phase : Phase) (o : Option MaplePacket) (x : Option (Main functions × Action))
      → ((e : Main functions) (a : Option MaplePacket)
          → IsKnown functions mask e
          → Outcome (λ x. IsKnown functions mask x.0) (rest e a))
      → Outcome (λ x. IsKnown functions mask x.0) x
      → Outcome (λ x. IsKnown functions mask x.0) (followed functions rest phase o x)
  followed-IsKnown rest phase o none all k = tt
  followed-IsKnown rest phase o (some (e, action)) all k =
      all e (answer_of functions phase action o) k

  follow-IsKnown_all :
      (d : Main functions) (o : Option MaplePacket) (reports : List Report)
      → IsKnown functions mask d
      → Outcome (λ x. IsKnown functions mask x.0) (follow functions d o reports)
  unfolding follow react
  follow-IsKnown_all d o [] k = k
  follow-IsKnown_all d o (r ∷ reports) k =
      followed-IsKnown (λ e a. follow functions e a reports) r.status.phase o (react functions d r)
        (λ e a k'. follow-IsKnown_all e a reports k') (react_to-IsKnown r.status.phase d r k)

  -- Whatever the bus reports, the main peripheral's address keeps the mask of its sub-peripherals and has
  -- the bits of the player that it reports, one of four or none, and each sub-peripheral has the same bits
  -- or those of no player, if this was so before.
  pub follow-IsKnown :
      (d e : Main functions) (o o' : Option MaplePacket) (reports : List Report)
      → IsKnown functions mask d
      → follow functions d o reports ≡ some (e, o')
      → IsKnown functions mask e
  follow-IsKnown d e o o' reports k history =
      Outcome-some (λ x. IsKnown functions mask x.0) (follow functions d o reports)
        (follow-IsKnown_all d o reports k) history
