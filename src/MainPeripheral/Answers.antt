-- ===== src/MainPeripheral/Answers.antt =====
-- src/clientLib/DreamcastMainPeripheral.cpp, dispensePacket: whom an answer comes from.
use dream_pico_port.Prelude.{
  ℕ, ◌+◌, ◌*◌, ◌/◌, ◌%◌, ◌≡◌, ◌≢◌, ◌∙◌, refl, ap, sym, true, false, not, ◌&&◌, ◌||◌, ◌==◌, bit_and,
  bit_or, u32, if◌then◌else◌, Outcome, Outcome-some, Option, none, some, Bool-cases, if_true,
  if_false, inl, inr, arith, ==_iff,
}
use dream_pico_port.Packet.{MaplePacket, update_frame_length, reset as reset_packet}
use dream_pico_port.Storage.{Handled}
use dream_pico_port.Peripheral.{
  Functions, Peripheral, get_address, handle_packet, not_player_id_addr_mask,
}
use dream_pico_port.Peripheral.Answers.{IsAddressed, handle_packet-IsAddressed}
use dream_pico_port.MainPeripheral.{
  player_of, is_player, command_reset, reset_main, set_player_index, take_player, after_handling,
  handled_main, handle_main, dispensed_main, answer_unknown, dispense_packet,
}
use dream_pico_port.MainPeripheral.Tasks.{Main}
use dream_pico_port.MainPeripheral.Addresses.{IsKnown, index, player_of_lem}
use dream_pico_port.MainPeripheral.Players.{dispense_packet-IsKnown}

answer_unknown_addresses :
    (h : Handled)
    → ((answer_unknown h).out.frame.sender_addr ≡ h.out.frame.sender_addr)
      × ((answer_unknown h).out.frame.recipient_addr ≡ h.out.frame.recipient_addr)
unfolding answer_unknown update_frame_length
answer_unknown_addresses h = ground arith

is_player_lem : (idx : ℕ) (o : Option ℕ) → is_player idx o ≡ true → o ≡ some idx
is_player_lem idx none h = cc
is_player_lem idx (some player) h = ap some (sym ((==_iff idx player).0 h))

module _ (functions : Functions) where
  newly :
      (d : Main functions) (idx : ℕ)
      → (not d.base.connected || not (is_player idx d.player_index)) ≡ true
      → set_player_index functions d idx
        ≡ take_player functions (if d.base.connected then reset_main functions d else d) idx
  unfolding set_player_index
  newly d idx new = if_true _ new

  as_before :
      (d : Main functions) (idx : ℕ)
      → (not d.base.connected || not (is_player idx d.player_index)) ≡ false
      → set_player_index functions d idx ≡ d
  unfolding set_player_index
  as_before d idx old = if_false _ old

  set_player_index_player :
      (d : Main functions) (idx : ℕ) → (set_player_index functions d idx).player_index ≡ some idx
  unfolding set_player_index take_player
  set_player_index_player d idx =
      elim (Bool-cases (not d.base.connected || not (is_player idx d.player_index))) [
        | inl new ↦ ap (λ (e : Main functions). e.player_index) (newly d idx new)
        | inr old ↦
            ap (λ (e : Main functions). e.player_index) (as_before d idx old)
            ∙ is_player_lem idx d.player_index (ground (arith, old))
      ]

  -- An answer comes from the peripheral and goes to the sender of the packet.
  abbrev ComesFrom : Option ℕ → MaplePacket → Main functions × Handled → Type 0
  ComesFrom player p x =
      (x.0.player_index ≡ player)
      × (x.1.out.frame.sender_addr ≡ get_address functions x.0.base)
      × (x.1.out.frame.recipient_addr ≡ p.frame.sender_addr)

  handled_main-ComesFrom :
      (d : Main functions) (p : MaplePacket) (o : Option (Peripheral functions × Handled))
      → ((b : Peripheral functions) (h : Handled)
          → o ≡ some (b, h)
          → IsAddressed functions (get_address functions b) p h.out)
      → Outcome (ComesFrom d.player_index p) (handled_main functions d false o)
  unfolding after_handling
  handled_main-ComesFrom d p none all = tt
  handled_main-ComesFrom d p (some (b, h)) all =
      let a = all b h refl in (refl, a.sender, a.recipient)

  dispensed_main-ComesFrom :
      (player : Option ℕ) (p : MaplePacket) (o : Option (Main functions × Handled))
      → Outcome (ComesFrom player p) o
      → Outcome (ComesFrom player p) (dispensed_main functions o)
  dispensed_main-ComesFrom player p none c = tt
  dispensed_main-ComesFrom player p (some (e, h)) c =
      let same = answer_unknown_addresses h in (c.0, same.0 ∙ c.1, same.1 ∙ c.2)

  -- A packet for the main peripheral that is not a reset command, while connections are allowed, where the
  -- addresses hold the mask and the bits of the player (IsKnown): if it is handled, the main peripheral has the player of
  -- the packet's sender afterwards, and the answer goes to that sender and comes from the main
  -- peripheral's address with the mask of the sub-peripherals and the bits of that player.
  pub dispense_packet_addresses :
      (mask : ℕ) (d e : Main functions) (p out : MaplePacket) (h : Handled)
      → IsKnown functions mask d
      → d.is_connection_allowed ≡ true
      → bit_and p.frame.recipient_addr not_player_id_addr_mask ≡ d.base.addr
      → p.frame.command ≢ command_reset
      → dispense_packet functions d p out ≡ some (e, h)
      → (e.player_index ≡ some (p.frame.sender_addr / 64 % 4))
        × (h.out.frame.sender_addr
            ≡ bit_or e.base.addr (mask + 64 * (p.frame.sender_addr / 64 % 4)))
        × (h.out.frame.recipient_addr ≡ p.frame.sender_addr)
  unfolding dispense_packet handle_main
  dispense_packet_addresses mask d e p out h k allowed mine other eq =
      let idx = player_of p.frame.sender_addr in
      let counted : Main functions = record d { read_count = u32 (d.read_count + 1) } in
      let taken = set_player_index functions counted idx in
      let before = reset_packet out in
      let resets = taken.base.connected && p.frame.command == command_reset in
      let not_reset : resets ≡ false = ground (arith, other) in
      let same : dispense_packet functions d p out
          ≡ dispensed_main functions
              (handled_main functions taken false (handle_packet functions taken.base p before)) =
        if_true _ ((==_iff _ _).1 mine) ∙ if_true _ allowed ∙ (λ i. dispensed_main functions (
          handled_main functions taken (not_reset i)
            (handle_packet functions taken.base p before))) in
      let come = dispensed_main-ComesFrom taken.player_index p _ (
        handled_main-ComesFrom taken p (handle_packet functions taken.base p before)
          (λ b r found. handle_packet-IsAddressed functions taken.base b p before r found)) in
      let (player, sender, recipient) =
        Outcome-some (ComesFrom taken.player_index p) _ come (sym same ∙ eq) in
      let known =
        Outcome-some (λ x. IsKnown functions mask x.0) (dispense_packet functions d p out)
          (dispense_packet-IsKnown functions mask d p out k) eq in
      let is_idx = ap some (player_of_lem p.frame.sender_addr) in
      let now = player ∙ set_player_index_player counted idx ∙ is_idx in
      (
        now,
        sender
            ∙ ap (λ (a : ℕ). bit_or e.base.addr a)
                (known.own ∙ ap (λ (o : Option ℕ). mask + 64 * index o) now),
        recipient,
      )
