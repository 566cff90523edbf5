-- ===== src/MainPeripheral/Keeps.antt =====
-- src/clientLib/DreamcastMainPeripheral.cpp, dispensePacket: what it leaves for a resend.
use dream_pico_port.Prelude.{
  ℕ, ◌+◌, u32, ◌≡◌, ◌∙◌, refl, Bool, ◌&&◌, ◌==◌, Outcome, Outcome-if, Option, none, some, arith,
}
use dream_pico_port.Packet.{MaplePacket, reset as reset_packet}
use dream_pico_port.Storage.{Handled}
use dream_pico_port.Peripheral.{Functions, Peripheral, handle_packet}
use dream_pico_port.MainPeripheral.{
  reset_main, set_player_index, take_player, handled_main, SubsHandled, dispensed_main,
  dispensed_sub, after_handling, player_of, command_reset, handle_main, dispense_packet,
  reset_others,
}
use dream_pico_port.MainPeripheral.Tasks.{Main}

module _ (functions : Functions) where
  -- The packets that are kept to be sent again are the same.
  abbrev pub Keeps : Main functions → Main functions → Type 0
  Keeps d e = (e.packet_sent ≡ d.packet_sent) × (e.last_packet_out ≡ d.last_packet_out)

  set_player_index-Keeps :
      (d : Main functions) (idx : ℕ) → Keeps d (set_player_index functions d idx)
  unfolding set_player_index take_player reset_main
  set_player_index-Keeps d idx = ground arith

  after_handling-Keeps :
      (d : Main functions) (resets : Bool) (r : Peripheral functions × Handled)
      → Keeps d (after_handling functions d resets r).0
  unfolding after_handling reset_others
  after_handling-Keeps d resets r = ground arith

  handled_main-Keeps :
      (d e : Main functions) (resets : Bool) (o : Option (Peripheral functions × Handled))
      → Keeps d e
      → Outcome (λ x. Keeps d x.0) (handled_main functions e resets o)
  handled_main-Keeps d e resets none k = tt
  handled_main-Keeps d e resets (some r) k =
      let after = after_handling-Keeps e resets r in (after.0 ∙ k.0, after.1 ∙ k.1)

  dispensed_main-Keeps :
      (d : Main functions) (o : Option (Main functions × Handled))
      → Outcome (λ x. Keeps d x.0) o
      → Outcome (λ x. Keeps d x.0) (dispensed_main functions o)
  dispensed_main-Keeps d none k = tt
  dispensed_main-Keeps d (some r) k = k

  dispensed_sub-Keeps :
      (d : Main functions) (out : MaplePacket) (o : SubsHandled functions)
      → Outcome (λ x. Keeps d x.0) (dispensed_sub functions d out o)
  dispensed_sub-Keeps d out none = tt
  dispensed_sub-Keeps d out (some none) = (refl, refl)
  dispensed_sub-Keeps d out (some (some r)) = (refl, refl)

  pub dispense_packet-Keeps :
      (d : Main functions) (p out : MaplePacket)
      → Outcome (λ x. Keeps d x.0) (dispense_packet functions d p out)
  unfolding dispense_packet handle_main
  dispense_packet-Keeps d p out =
      let counted : Main functions = record d { read_count = u32 (d.read_count + 1) } in
      let taken = set_player_index functions counted (player_of p.frame.sender_addr) in
      let mine = dispensed_main-Keeps d _ (
        handled_main-Keeps d taken (taken.base.connected && p.frame.command == command_reset)
          (handle_packet functions taken.base p (reset_packet out))
          (set_player_index-Keeps counted (player_of p.frame.sender_addr))) in
      let idle : Keeps d counted = (refl, refl) in
      let sub = dispensed_sub-Keeps d (reset_packet out) in search (Outcome-if, mine, sub, idle)
