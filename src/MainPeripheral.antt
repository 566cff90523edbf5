-- ===== src/MainPeripheral.antt =====
-- src/clientLib/DreamcastMainPeripheral.cpp and .hpp: the emulated peripheral that owns the bus. It
-- answers for itself and hands packets on to its sub-peripherals. `reset` and `handlePacket` are
-- virtual, so that a reset command makes the whole main peripheral reset. The calls of the callback
-- are kept in a list, the last one first.
pub mod Tasks
pub mod Keeps
pub mod Resends
pub mod SubAddresses
pub mod Addresses
pub mod Players
pub mod Answers
pub mod SubResets
pub mod SubPeripherals
pub mod Tests
use dream_pico_port.Prelude.{
  ℕ, ◌+◌, ◌-◌, ◌/◌, ◌%◌, ◌^◌, ◌≡◌, Bool, true, false, not, ◌&&◌, ◌||◌, ◌==◌, ltb, bit_and, bit_or,
  u8, u32, ◌<<<◌, ◌>>>◌, if◌then◌else◌, List, [], ◌∷◌, map, Option, none, some,
}
use dream_pico_port.Frame.{host}
use dream_pico_port.Packet.{
  MaplePacket, make_default, update_frame_length, set_words, reset as reset_packet,
}
use dream_pico_port.Storage.{Handled, with_command}
use dream_pico_port.Peripheral.{
  Functions, Peripheral, handle_packet, reset_peripheral, set_addr_augmenter,
  not_player_id_addr_mask,
}

abbrev pub player_id_addr_mask : ℕ
player_id_addr_mask = 0xC0

abbrev pub command_reset : ℕ
command_reset = 3

abbrev pub command_response_unknown_command : ℕ
command_response_unknown_command = 0xFD

abbrev pub command_response_request_resend : ℕ
command_response_request_resend = 0xFC

-- The player that a packet's sender stands for.
abbrev pub player_of : ℕ → ℕ
player_of sender = bit_and sender player_id_addr_mask >>> 6

abbrev pub augmenter_mask : ℕ → ℕ
augmenter_mask idx = u8 (idx <<< 6)

abbrev pub is_player : ℕ → Option ℕ → Bool
is_player idx none = false
is_player idx (some player) = idx == player

-- A packet for this device that nobody handled is answered all the same.
unfoldable pub answer_unknown : Handled → Handled
answer_unknown h =
    if not h.handled && not (h.out.frame.sender_addr == h.out.frame.recipient_addr)
    then record {
      out =
          update_frame_length
            (record (with_command h.out command_response_unknown_command) { payload = [] });
      handled = true;
    }
    else h

abbrev pub not_handled : MaplePacket → Handled
not_handled out = record { out = out; handled = false }

module _ (functions : Functions) where
  -- A player index of -1 is `none`.
  pub record MainPeripheral : Type 0 where
    pub base : Peripheral functions
    pub is_connection_allowed : Bool
    pub player_index : Option ℕ
    pub sub_peripherals : List (Peripheral functions)
    pub last_sender : ℕ
    pub packet_out : MaplePacket
    pub last_packet_out : MaplePacket
    pub packet_sent : Bool
    pub packet_in : MaplePacket
    pub read_count : ℕ
    pub index_changes : List (Option ℕ)

  -- The two constructors, which differ in the first player index.
  unfoldable pub make : Peripheral functions → Option ℕ → MainPeripheral
  make base player_index = record {
    base = base;
    is_connection_allowed = true;
    player_index = player_index;
    sub_peripherals = [];
    last_sender = 0;
    packet_out = make_default;
    last_packet_out = make_default;
    packet_sent = false;
    packet_in = make_default;
    read_count = 0;
    index_changes = [];
  }

  unfoldable pub make_with_producer : Peripheral functions → MainPeripheral
  unfolding make
  make_with_producer base = make base (some 0)

  unfoldable pub make_main : Peripheral functions → MainPeripheral
  unfolding make
  make_main base = make base none

  unfoldable allow_connection : MainPeripheral → MainPeripheral
  allow_connection d = record d { is_connection_allowed = true }

  unfoldable disallow_connection : MainPeripheral → MainPeripheral
  disallow_connection d = record d { is_connection_allowed = false }

  unfoldable reset_read_count : MainPeripheral → MainPeripheral
  reset_read_count d = record d { read_count = 0 }

  -- What a reset does besides the reset of the peripheral itself.
  unfoldable pub reset_others : MainPeripheral → MainPeripheral
  reset_others d = record d {
    player_index = none;
    sub_peripherals = map (reset_peripheral functions) d.sub_peripherals;
    index_changes = none ∷ d.index_changes;
  }

  unfoldable pub reset_main : MainPeripheral → MainPeripheral
  unfolding reset_others
  reset_main d = reset_others (record d { base = reset_peripheral functions d.base })

  -- The player index, and its bits in the addresses.
  unfoldable pub take_player : MainPeripheral → ℕ → MainPeripheral
  take_player d idx = record d {
    player_index = some idx;
    base =
        set_addr_augmenter functions d.base
          (bit_or (bit_and d.base.addr_augmenter not_player_id_addr_mask) (augmenter_mask idx));
    sub_peripherals =
        map (λ (s : Peripheral functions). set_addr_augmenter functions s (augmenter_mask idx))
          d.sub_peripherals;
    index_changes = some idx ∷ d.index_changes;
  }

  unfoldable pub set_player_index : MainPeripheral → ℕ → MainPeripheral
  unfolding take_player
  set_player_index d idx =
      if not d.base.connected || not (is_player idx d.player_index)
      then take_player (if d.base.connected then reset_main d else d) idx
      else d

  -- After the packet was handled for the peripheral itself, which has done its own part of a reset.
  unfoldable pub after_handling :
      MainPeripheral → Bool → Peripheral functions × Handled → MainPeripheral × Handled
  after_handling d resets (base, h) =
      let e = record d { base = base } in (if resets then reset_others e else e, h)

  abbrev pub handled_main :
      MainPeripheral
      → Bool
      → Option (Peripheral functions × Handled)
      → Option (MainPeripheral × Handled)
  handled_main d resets none = none
  handled_main d resets (some r) = some (after_handling d resets r)

  -- handlePacket of the main peripheral; `none` is a read out of bounds.
  unfoldable pub handle_main :
      MainPeripheral → MaplePacket → MaplePacket → Option (MainPeripheral × Handled)
  handle_main d p out =
      let e = set_player_index d (player_of p.frame.sender_addr) in
      handled_main e (e.base.connected && p.frame.command == command_reset)
        (handle_packet functions e.base p out)

  abbrev pub SubsHandled : Type 0
  SubsHandled = Option (Option (List (Peripheral functions) × Handled))

  abbrev pub handled_sub :
      List (Peripheral functions) → Option (Peripheral functions × Handled) → SubsHandled
  handled_sub subs none = none
  handled_sub subs (some (s, h)) = some (some (s ∷ subs, h))

  abbrev pub passed_on : Peripheral functions → SubsHandled → SubsHandled
  passed_on s none = none
  passed_on s (some none) = some none
  passed_on s (some (some (subs, h))) = some (some (s ∷ subs, h))

  -- The packet goes to the sub-peripheral with an address, and `some none` if there is no such one.
  unfoldable pub handle_sub :
      ℕ → List (Peripheral functions) → MaplePacket → MaplePacket → SubsHandled
  handle_sub addr [] p out = some none
  handle_sub addr (s ∷ subs) p out =
      let rest = handle_sub addr subs p out in
      if s.addr == addr
      then handled_sub subs (handle_packet functions s p out)
      else passed_on s rest

  abbrev pub dispensed_main : Option (MainPeripheral × Handled) → Option (MainPeripheral × Handled)
  dispensed_main none = none
  dispensed_main (some (d, h)) = some (d, answer_unknown h)

  abbrev pub dispensed_sub :
      MainPeripheral → MaplePacket → SubsHandled → Option (MainPeripheral × Handled)
  dispensed_sub d out none = none
  dispensed_sub d out (some none) = some (d, not_handled out)
  dispensed_sub d out (some (some (subs, h))) =
      some (record d { sub_peripherals = subs }, answer_unknown h)

  abbrev pub dispense_main :
      MainPeripheral → MaplePacket → MaplePacket → Option (MainPeripheral × Handled)
  dispense_main d p out =
      if d.is_connection_allowed
      then dispensed_main (handle_main d p out)
      else some (d, not_handled out)

  unfoldable pub dispense_packet :
      MainPeripheral → MaplePacket → MaplePacket → Option (MainPeripheral × Handled)
  dispense_packet d p before =
      let out = reset_packet before in
      let addr = bit_and p.frame.recipient_addr not_player_id_addr_mask in
      if addr == d.base.addr
      then dispense_main (record d { read_count = u32 (d.read_count + 1) }) p out
      else if d.is_connection_allowed
      then dispensed_sub d out (handle_sub addr d.sub_peripherals p out)
      else some (d, not_handled out)
