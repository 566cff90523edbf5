-- ===== src/Peripheral/Augmenter.antt =====
-- src/clientLib/DreamcastPeripheral.cpp, handlePacket: what it leaves of the address augmenter.
use dream_pico_port.Prelude.{
  ℕ, ◌≡◌, refl, sym, subst, Bool, true, false, ◌&&◌, ◌||◌, ◌==◌, bit_and, if◌then◌else◌, List, [],
  ◌∷◌, Outcome, Option, none, some, Bool-cases, inl, inr, arith,
}
use dream_pico_port.Packet.{MaplePacket}
use dream_pico_port.Storage.{Handled}
use dream_pico_port.Peripheral.{
  Functions, Peripheral, handle_packet, switch, addressed, info_answer, function_command,
  function_answer, set_function_definitions, reset_peripheral, not_player_id_addr_mask,
  is_info_request,
}

module _ (functions : Functions) where
  abbrev pub IsAugmented : ℕ → Peripheral functions × Handled → Type 0
  IsAugmented a x = x.0.addr_augmenter ≡ a

  addressed_augmenter :
      (p : MaplePacket) (a : ℕ) (o : Option (Peripheral functions × Handled))
      → Outcome (IsAugmented a) o
      → Outcome (IsAugmented a) (addressed functions p o)
  unfolding addressed
  addressed_augmenter p a none h = tt
  addressed_augmenter p a (some (d, h')) h = h

  function_answer_augmenter :
      (d : Peripheral functions) (out : MaplePacket)
      (r : Option (List (functions.Function) × Handled))
      → IsAugmented d.addr_augmenter (function_answer functions d out r)
  unfolding function_answer
  function_answer_augmenter d out none = refl
  function_answer_augmenter d out (some r) = refl

  function_command_augmenter :
      (d : Peripheral functions) (p out : MaplePacket) (payload : List ℕ)
      → Outcome (IsAugmented d.addr_augmenter) (function_command functions d p out payload)
  unfolding function_command
  function_command_augmenter d p out [] = tt
  function_command_augmenter d p out (code ∷ words) = function_answer_augmenter d out _

  -- A reset command clears the bits of the player.
  abbrev pub augmenter_after : Bool → Peripheral functions → MaplePacket → ℕ
  augmenter_after connected d p =
      if connected && p.frame.command == 3
      then bit_and d.addr_augmenter not_player_id_addr_mask
      else d.addr_augmenter

  switch_augmenter :
      (d : Peripheral functions) (p out : MaplePacket)
      → Outcome (IsAugmented (augmenter_after true d p)) (switch functions d p out)
  unfolding switch info_answer set_function_definitions reset_peripheral
  switch_augmenter d p out = ground (arith, function_command_augmenter d p out p.payload)

  connected_after :
      (d : Peripheral functions) (p : MaplePacket)
      → (d.connected || is_info_request p.frame.command) ≡ true
      → augmenter_after d.connected d p ≡ augmenter_after true d p
  connected_after d p h = ground (arith, h)

  quiet_after :
      (d : Peripheral functions) (p : MaplePacket)
      → (d.connected || is_info_request p.frame.command) ≡ false
      → d.addr_augmenter ≡ augmenter_after d.connected d p
  quiet_after d p h = ground (arith, h)

  pub handle_packet_augmenter :
      (d : Peripheral functions) (p out : MaplePacket)
      → Outcome (IsAugmented (augmenter_after d.connected d p)) (handle_packet functions d p out)
  unfolding handle_packet
  handle_packet_augmenter d p out =
      elim (Bool-cases (d.connected || is_info_request p.frame.command)) [
        | inl on ↦
            let e : Peripheral functions = record d { connected = true } in
            subst (λ (a : ℕ). Outcome (IsAugmented a) (handle_packet functions d p out))
              (sym (connected_after d p on))
              (rw on
                (addressed_augmenter p (augmenter_after true d p) _ (switch_augmenter e p out)))
        | inr off ↦
            addressed_augmenter p (augmenter_after d.connected d p) _ (rw off (quiet_after d p off))
      ]
