-- ===== src/MainPeripheral/SubResets.antt =====
-- src/clientLib/DreamcastMainPeripheral.cpp: a reset command for a sub-peripheral.
use dream_pico_port.Prelude.{
  ℕ, ◌+◌, u32, if_both, ◌≡◌, ◌≢◌, ◌∙◌, refl, ap, sym, subst, not, ◌||◌, true, false, ◌&&◌, ◌==◌,
  bit_and, bit_or, [], ◌∷◌, Outcome, Outcome-some, Option, none, some, if_true, if_false, arith,
  ==_iff,
}
use dream_pico_port.Prelude.Bits.{bit_or-zero}
use dream_pico_port.Packet.{MaplePacket, reset as reset_packet}
use dream_pico_port.Storage.{Handled}
use dream_pico_port.Peripheral.{
  Functions, Peripheral, get_address, handle_packet, not_player_id_addr_mask,
}
use dream_pico_port.Peripheral.Augmenter.{IsAugmented, augmenter_after, handle_packet_augmenter}
use dream_pico_port.MainPeripheral.{
  is_player, player_of, after_handling, handled_main, handle_main, dispensed_main, command_reset,
  set_player_index, handled_sub, handle_sub, dispensed_sub, dispense_packet,
}
use dream_pico_port.MainPeripheral.Tasks.{Main}
use dream_pico_port.MainPeripheral.Addresses.{HasPlayer, sub_cleared}

module _ (functions : Functions) where
  -- The only sub-peripheral has a bare address, and the main peripheral is as before.
  pub record IsForgotten (d e : Main functions) : Type 0 where
    pub sub : Peripheral functions
    pub only : e.sub_peripherals ≡ sub ∷ []
    pub bare : get_address functions sub ≡ sub.addr
    pub player : e.player_index ≡ d.player_index
    pub own : e.base ≡ d.base

  sub_answer :
      (d : Main functions) (before : MaplePacket) (o : Option (Peripheral functions × Handled))
      → Outcome (IsAugmented functions 0) o
      → Outcome
          (λ x. IsForgotten d x.0)
          (dispensed_sub functions d before (handled_sub functions [] o))
  sub_answer d before none a = tt
  sub_answer d before (some (s, h)) a = record {
    sub = s;
    only = refl;
    bare = ap (λ (b : ℕ). bit_or s.addr b) a ∙ bit_or-zero s.addr;
    player = refl;
    own = refl;
  }

  reset_augmenter :
      (idx : ℕ) (s : Peripheral functions) (p : MaplePacket)
      → HasPlayer functions idx s
      → s.connected ≡ true
      → p.frame.command ≡ command_reset
      → augmenter_after functions s.connected s p ≡ 0
  reset_augmenter idx s p h on command =
      let resets : (s.connected && p.frame.command == command_reset) ≡ true =
        ground (arith, on, command) in
      if_true s.addr_augmenter resets ∙ sub_cleared functions idx s h

  unsettled :
      (e : Main functions) (idx : ℕ)
      → e.base.connected ≡ true
      → e.player_index ≡ some idx
      → (not e.base.connected || not (is_player idx e.player_index)) ≡ false
  unsettled e idx on player = rw (on, player) (ground arith)

  -- A packet to the main peripheral leaves the sub-peripherals, and the player.
  abbrev LeavesSubs : Main functions → Main functions × Handled → Type 0
  LeavesSubs e x = (x.0.sub_peripherals ≡ e.sub_peripherals) × (x.0.player_index ≡ e.player_index)

  handled_main-LeavesSubs :
      (e : Main functions) (o : Option (Peripheral functions × Handled))
      → Outcome (LeavesSubs e) (handled_main functions e false o)
  unfolding after_handling
  handled_main-LeavesSubs e none = tt
  handled_main-LeavesSubs e (some r) = (refl, refl)

  dispensed_main-LeavesSubs :
      (e : Main functions) (o : Option (Main functions × Handled))
      → Outcome (LeavesSubs e) o
      → Outcome (LeavesSubs e) (dispensed_main functions o)
  dispensed_main-LeavesSubs e none l = tt
  dispensed_main-LeavesSubs e (some r) l = l

  same_player_packet :
      (e : Main functions) (p out : MaplePacket)
      → e.base.connected ≡ true
      → e.player_index ≡ some (player_of p.frame.sender_addr)
      → bit_and p.frame.recipient_addr not_player_id_addr_mask ≡ e.base.addr
      → p.frame.command ≢ command_reset
      → Outcome (LeavesSubs e) (dispense_packet functions e p out)
  unfolding dispense_packet handle_main set_player_index
  same_player_packet e p out connected player mine other =
      let counted : Main functions = record e { read_count = u32 (e.read_count + 1) } in
      let before = reset_packet out in
      let idx = player_of p.frame.sender_addr in
      let taken : set_player_index functions counted idx ≡ counted =
        if_false _ (unsettled counted idx connected player) in
      let not_reset : (e.base.connected && p.frame.command == command_reset) ≡ false =
        ground (arith, other) in
      let handled : dispensed_main functions (handle_main functions counted p before)
          ≡ dispensed_main functions
              (handled_main functions counted false (handle_packet functions e.base p before)) =
        (λ i. dispensed_main functions (
          handled_main functions (taken i)
            ((taken i).base.connected && p.frame.command == command_reset)
            (handle_packet functions (taken i).base p before)))
        ∙ (λ i. dispensed_main functions (
            handled_main functions counted (not_reset i)
              (handle_packet functions e.base p before))) in
      let left = subst (Outcome (LeavesSubs e)) (sym handled) (
        dispensed_main-LeavesSubs e _
          (handled_main-LeavesSubs counted (handle_packet functions e.base p before))) in
      subst (Outcome (LeavesSubs e)) (sym (if_true _ ((==_iff _ _).1 mine)))
        (if_both (Outcome (LeavesSubs e)) e.is_connection_allowed left (refl, refl))

  -- A connected sub-peripheral, the only one, with an address other than the main peripheral's, gets a
  -- reset command while connections are allowed and the main peripheral is connected with a player; its
  -- address has the bits of this player or none. If the packet is handled, these bits are none
  -- afterwards; the main peripheral
  -- keeps its own address and the player. A packet of the same player to the main peripheral that is
  -- not a reset command, if it is handled, does not give the sub-peripheral these bits again: it leaves
  -- the sub-peripherals and the player as they are.
  pub sub_reset_forgets :
      (d e e' : Main functions) (s : Peripheral functions) (idx : ℕ) (p out q out' : MaplePacket)
      (h h' : Handled)
      → d.sub_peripherals ≡ s ∷ []
      → d.is_connection_allowed ≡ true
      → d.base.connected ≡ true
      → d.player_index ≡ some idx
      → HasPlayer functions idx s
      → s.connected ≡ true
      → s.addr ≢ d.base.addr
      → bit_and p.frame.recipient_addr not_player_id_addr_mask ≡ s.addr
      → p.frame.command ≡ command_reset
      → dispense_packet functions d p out ≡ some (e, h)
      → player_of q.frame.sender_addr ≡ idx
      → bit_and q.frame.recipient_addr not_player_id_addr_mask ≡ d.base.addr
      → q.frame.command ≢ command_reset
      → dispense_packet functions e q out' ≡ some (e', h')
      → IsForgotten d e × (e'.sub_peripherals ≡ e.sub_peripherals) × (e'.player_index ≡ some idx)
  unfolding dispense_packet handle_sub
  sub_reset_forgets d e e' s idx p out q out' h h' subs allowed connected player has on apart
        for_sub command eq sender mine not_reset next =
      let before = reset_packet out in
      let addr = bit_and p.frame.recipient_addr not_player_id_addr_mask in
      let other : (addr == d.base.addr) ≡ false = ground (arith, apart, for_sub) in
      let same : dispense_packet functions d p out
          ≡ dispensed_sub functions d before
              (handled_sub functions [] (handle_packet functions s p before)) =
        if_false _ other
        ∙ if_true _ allowed
        ∙ (λ i. dispensed_sub functions d before (handle_sub functions addr (subs i) p before))
        ∙ ap (dispensed_sub functions d before) (if_true _ ((==_iff _ _).1 (sym for_sub))) in
      let augmented =
        subst (λ (a : ℕ). Outcome (IsAugmented functions a) (handle_packet functions s p before))
          (reset_augmenter idx s p has on command) (handle_packet_augmenter functions s p before) in
      let forgotten =
        Outcome-some (λ x. IsForgotten d x.0) _
          (sub_answer d before (handle_packet functions s p before) augmented) (sym same ∙ eq) in
      let still = ap (λ (b : Peripheral functions). b.connected) forgotten.own ∙ connected in
      let same_player = forgotten.player ∙ player in
      let own_addr = ap (λ (b : Peripheral functions). b.addr) forgotten.own in
      let left =
        Outcome-some (LeavesSubs e) _
          (same_player_packet e q out' still (same_player ∙ ap some (sym sender))
            (mine ∙ sym own_addr) not_reset)
          next in
      (forgotten, left.0, left.1 ∙ same_player)
