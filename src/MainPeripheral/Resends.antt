-- ===== src/MainPeripheral/Resends.antt =====
-- src/clientLib/DreamcastMainPeripheral.cpp, task: which packet is sent again.
use dream_pico_port.Prelude.{
  ◌≡◌, ◌∙◌, refl, ap, Bool, true, false, ◌&&◌, ◌==◌, if◌then◌else◌, List, [], ◌∷◌, Outcome,
  Outcome-if, Outcome-some, Option, none, some, arith, ==_iff,
}
use dream_pico_port.Packet.{MaplePacket}
use dream_pico_port.Storage.{Handled}
use dream_pico_port.Timeliner.{
  Phase, idle, write_in_progress, write_failed, write_complete, waiting_for_read_start,
  read_in_progress, read_failed, read_complete, invalid,
}
use dream_pico_port.MapleBus.Events.{Report}
use dream_pico_port.Peripheral.{Functions}
use dream_pico_port.MainPeripheral.{command_response_request_resend, reset_main, dispense_packet}
use dream_pico_port.MainPeripheral.Tasks.{
  Action, start_reading, writing, Main, packet_from, answer, answer_packet, ask_again, start_over,
  send_again, is_crc_invalid, answer_dispensed, react_to, react,
}
use dream_pico_port.MainPeripheral.Keeps.{Keeps, dispense_packet-Keeps}

module _ (functions : Functions) where
  -- What is known of the packet to send again, if one was sent.
  abbrev Sent : Main functions → Option MaplePacket → Type 0
  Sent d none = d.packet_sent ≡ false
  Sent d (some p) = (d.packet_sent ≡ true) × (d.last_packet_out ≡ p)

  Keeps-Sent :
      (d e : Main functions) (o : Option MaplePacket) → Keeps functions d e → Sent d o → Sent e o
  Keeps-Sent d e none k s = k.0 ∙ s
  Keeps-Sent d e (some p) k s = (k.0 ∙ s.0, k.1 ∙ s.1)

  -- The last answer to a packet, after one more report. The request to send again is no answer.
  abbrev pub answer_of : Phase → Action → Option MaplePacket → Option MaplePacket
  answer_of read_complete (writing p) o = some p
  answer_of _ _ o = o

  answer-Sent :
      (d : Main functions) (write_it : Bool) (o : Option MaplePacket)
      → Sent d o
      → Sent
          (answer functions d write_it).0
          (answer_of read_complete (answer functions d write_it).1 o)
  unfolding answer
  answer-Sent d true o s = (refl, refl)
  answer-Sent d false o s = s

  send_again_none :
      (d : Main functions) → d.packet_sent ≡ false → send_again functions d ≡ (d, start_reading)
  unfolding send_again answer
  send_again_none d h = ground (arith, h)

  send_again_some :
      (d : Main functions)
      → d.packet_sent ≡ true
      → send_again functions d ≡ (
        record d { packet_out = d.last_packet_out; packet_sent = true },
        writing d.last_packet_out,
      )
  unfolding send_again answer
  send_again_some d h = ground (arith, h)

  send_again-Sent :
      (d : Main functions) (o : Option MaplePacket)
      → Sent d o
      → Sent (send_again functions d).0 (answer_of read_complete (send_again functions d).1 o)
  send_again-Sent d none s = rw (send_again_none d s) s
  send_again-Sent d (some p) s = rw (send_again_some d s.0) (refl, refl)

  answer_dispensed-Sent :
      (d : Main functions) (o : Option MaplePacket) (x : Option (Main functions × Handled))
      → Outcome (λ x. Keeps functions d x.0) x
      → Sent d o
      → Outcome (λ x. Sent x.0 (answer_of read_complete x.1 o)) (answer_dispensed functions x)
  answer_dispensed-Sent d o none k s = tt
  answer_dispensed-Sent d o (some (e, h)) k s =
      answer-Sent (record e { packet_out = h.out }) h.handled o (Keeps-Sent d e o k s)

  answer_packet-Sent :
      (d : Main functions) (p : MaplePacket) (o : Option MaplePacket)
      → Sent d o
      → Outcome (λ x. Sent x.0 (answer_of read_complete x.1 o)) (answer_packet functions d p)
  unfolding answer_packet
  answer_packet-Sent d p o s =
      let e : Main functions = record d { packet_in = p; last_sender = p.frame.sender_addr } in
      let sent : Sent e o = Keeps-Sent d e o (refl, refl) s in
      let again = send_again-Sent e o sent in
      let answered =
        answer_dispensed-Sent e o (dispense_packet functions e p e.packet_out)
          (dispense_packet-Keeps functions e p e.packet_out) sent in
      search (Outcome-if, again, answered)

  react_to-Sent :
      (phase : Phase) (d : Main functions) (r : Report) (o : Option MaplePacket)
      → Sent d o
      → Outcome (λ x. Sent x.0 (answer_of phase x.1 o)) (react_to functions phase d r)
  unfolding ask_again start_over reset_main
  react_to-Sent read_failed d r o s =
      let asks = is_crc_invalid r.failure_reason && d.base.connected in
      let e = (if asks then ask_again functions d else start_over functions d).0 in
      let kept : Keeps functions d e = ground arith in Keeps-Sent d e o kept s
  react_to-Sent invalid d r o s = Keeps-Sent d (reset_main functions d) o (refl, refl) s
  react_to-Sent idle d r o s = Keeps-Sent d (reset_main functions d) o (refl, refl) s
  react_to-Sent write_failed d r o s = s
  react_to-Sent write_complete d r o s = s
  react_to-Sent write_in_progress d r o s = s
  react_to-Sent waiting_for_read_start d r o s = s
  react_to-Sent read_in_progress d r o s = s
  react_to-Sent read_complete d r o s = answer_packet-Sent d (packet_from functions d r.status) o s

  -- The state after some reports, and the last answer to a packet.
  abbrev pub followed :
      (Main functions → Option MaplePacket → Option (Main functions × Option MaplePacket))
      → Phase
      → Option MaplePacket
      → Option (Main functions × Action)
      → Option (Main functions × Option MaplePacket)
  followed rest phase o none = none
  followed rest phase o (some (e, action)) = rest e (answer_of phase action o)

  unfoldable pub follow :
      Main functions
      → Option MaplePacket
      → List Report
      → Option (Main functions × Option MaplePacket)
  follow d o [] = some (d, o)
  follow d o (r ∷ reports) =
      followed (λ e a. follow e a reports) r.status.phase o (react functions d r)

  followed-Sent :
      (rest : Main functions → Option MaplePacket → Option (Main functions × Option MaplePacket))
      (phase : Phase) (o : Option MaplePacket) (x : Option (Main functions × Action))
      → ((e : Main functions) (a : Option MaplePacket)
          → Sent e a
          → Outcome (λ x. Sent x.0 x.1) (rest e a))
      → Outcome (λ x. Sent x.0 (answer_of phase x.1 o)) x
      → Outcome (λ x. Sent x.0 x.1) (followed rest phase o x)
  followed-Sent rest phase o none all t = tt
  followed-Sent rest phase o (some (e, action)) all t = all e (answer_of phase action o) t

  follow-Sent :
      (d : Main functions) (o : Option MaplePacket) (reports : List Report)
      → Sent d o
      → Outcome (λ x. Sent x.0 x.1) (follow d o reports)
  unfolding follow react
  follow-Sent d o [] s = s
  follow-Sent d o (r ∷ reports) s =
      followed-Sent (λ e a. follow e a reports) r.status.phase o (react functions d r)
        (λ e a t. follow-Sent e a reports t) (react_to-Sent r.status.phase d r o s)

  -- What is done about a request to send again.
  abbrev pub again : Option MaplePacket → Action
  again none = start_reading
  again (some p) = writing p

  resend_answer :
      (d : Main functions) (o : Option MaplePacket)
      → Sent d o
      → (d' : Main functions) × (send_again functions d ≡ (d', again o))
  resend_answer d none s = (d, send_again_none d s)
  resend_answer d (some p) s =
      let sent : Main functions = record d { packet_out = d.last_packet_out; packet_sent = true } in
      (sent, send_again_some d s.0 ∙ (λ i. (sent, writing (s.1 i))))

  react-resend :
      (d : Main functions) (o : Option MaplePacket) (r : Report)
      → Sent d o
      → r.status.phase ≡ read_complete
      → (packet_from functions d r.status).frame.command ≡ command_response_request_resend
      → (d' : Main functions) × (react functions d r ≡ some (d', again o))
  unfolding react answer_packet
  react-resend d o r s phase command =
      let p = packet_from functions d r.status in
      let e : Main functions = record d { packet_in = p; last_sender = p.frame.sender_addr } in
      let (d', eq) = resend_answer e o (Keeps-Sent d e o (refl, refl) s) in
      let resend : (p.frame.command == command_response_request_resend) ≡ true =
        (==_iff _ _).1 command in
      let taken : answer_packet functions d p ≡ some (send_again functions e) = rw resend refl in
      (d', ap (λ ph. react_to functions ph d r) phase ∙ taken ∙ ap some eq)

  -- At a main peripheral that has not answered anything yet, reports come in, one by one. A request to
  -- send again is then answered with the very packet that was the last answer to a packet, or by
  -- waiting for a packet if there was none, whatever failures, timeouts and resets came since: also
  -- where the write of that answer failed.
  pub follow-resend :
      (d e : Main functions) (o : Option MaplePacket) (reports : List Report) (r : Report)
      → d.packet_sent ≡ false
      → follow d none reports ≡ some (e, o)
      → r.status.phase ≡ read_complete
      → (packet_from functions e r.status).frame.command ≡ command_response_request_resend
      → (e' : Main functions) × (react functions e r ≡ some (e', again o))
  follow-resend d e o reports r fresh history phase command =
      react-resend e o r
        (Outcome-some (λ x. Sent x.0 x.1) (follow d none reports) (follow-Sent d none reports fresh)
          history)
        phase command
