-- ===== src/MainPeripheral/Tests.antt =====
-- A main peripheral with one sub-peripheral, at the second player.
use dream_pico_port.Prelude.{
  ℕ, ◌+◌, ◌*◌, ◌/◌, ◌%◌, ◌≡◌, refl, true, false, List, [], ◌∷◌, replicate, none, some, bit_or, inl,
  arith,
}
use dream_pico_port.Frame.{host, set_from_frame_word}
use dream_pico_port.Packet.{
  MaplePacket, make_default, set_words, update_frame_length, reset as reset_packet,
}
use dream_pico_port.Storage.{Handled}
use dream_pico_port.Storage.Volatile.{clocked_memory}
use dream_pico_port.Timeliner.{read_complete, read_failed}
use dream_pico_port.MapleBus.{no_failure, timeout}
use dream_pico_port.MapleBus.Events.{Report, report}
use dream_pico_port.Peripheral.{
  Functions, Peripheral, handle_packet, addressed, switch, set_addr_augmenter, address_answer,
  reset_peripheral,
}
use dream_pico_port.Peripheral.StorageUnit.{storage_functions}
use dream_pico_port.MainPeripheral.{
  take_player, handle_sub, handle_main, set_player_index, answer_unknown, reset_main,
  after_handling, dispense_packet,
}
use dream_pico_port.MainPeripheral.Tasks.{
  Main, answer_packet, answer, start_over, react, packet_from,
}
use dream_pico_port.MainPeripheral.Resends.{follow, again, follow-resend}
use dream_pico_port.MainPeripheral.Addresses.{IsKnown}
use dream_pico_port.MainPeripheral.Players.{follow-IsKnown}
use dream_pico_port.MainPeripheral.Answers.{dispense_packet_addresses}
use dream_pico_port.MainPeripheral.SubResets.{IsForgotten, sub_reset_forgets}

abbrev functions : Functions
functions = storage_functions clocked_memory

abbrev plain_unit : ℕ → ℕ → Peripheral functions
plain_unit addr augmenter = record {
  addr = addr;
  connected = true;
  addr_augmenter = augmenter;
  devices = [];
  dev_info = replicate 48 0;
}

abbrev memory_unit : Peripheral functions
memory_unit = plain_unit 1 64

abbrev controller : Main functions
controller = record {
  base = plain_unit 0x20 65;
  is_connection_allowed = true;
  player_index = some 1;
  sub_peripherals = memory_unit ∷ [];
  last_sender = 0;
  packet_out = make_default;
  last_packet_out = make_default;
  packet_sent = false;
  packet_in = make_default;
  read_count = 0;
  index_changes = [];
}

controller-IsKnown : IsKnown functions 1 controller
controller-IsKnown = record {
  low = omega arith;
  player = omega arith;
  own = refl;
  subs = (inl refl, tt);
}

-- A packet from the second player.
abbrev packet : ℕ → ℕ → MaplePacket
packet command recipient = record {
  frame = record { command = command; recipient_addr = recipient; sender_addr = 0x40; length = 0 };
  payload = [];
  payload_byte_order = host;
}

-- The report of a packet with a frame word and no payload.
abbrev arrived : ℕ → Report
arrived word = record {
  status = record {
    phase = read_complete;
    read_buffer = word ∷ [];
    read_buffer_len = 1;
    rx_byte_order = host;
  };
  failure_reason = no_failure;
}

-- An unknown command, and a failure.
abbrev reports : List Report
reports = arrived 0x20604000 ∷ report read_failed timeout ∷ []

-- What is answered to a command that nobody knows.
abbrev unknown_answer : MaplePacket
unknown_answer = record {
  frame = record { command = 0xFD; recipient_addr = 0x40; sender_addr = 0x61; length = 0 };
  payload = [];
  payload_byte_order = host;
}

abbrev controller_after : Main functions
controller_after = record controller {
  base = record (plain_unit 0x20 1) { connected = false };
  player_index = none;
  sub_peripherals = record (plain_unit 1 0) { connected = false } ∷ [];
  last_sender = 0x40;
  packet_out = unknown_answer;
  last_packet_out = unknown_answer;
  packet_sent = true;
  packet_in = packet 0x20 0x60;
  read_count = 1;
  index_changes = none ∷ [];
}

followed_lem :
    follow functions controller none reports ≡ some (controller_after, some unknown_answer)
unfolding follow react answer_packet dispense_packet handle_main set_player_index handle_packet
    addressed switch address_answer answer_unknown answer reset_main reset_peripheral start_over
    after_handling set_words set_from_frame_word update_frame_length reset_packet make_default
followed_lem = refl

resend_arrived :
    (packet_from functions controller_after (arrived 0xFC604000).status).frame.command ≡ 0xFC
unfolding set_words set_from_frame_word
resend_arrived = refl

follow-resend_example :
    (e' : Main functions) × (react functions controller_after (arrived 0xFC604000)
      ≡ some (e', again functions (some unknown_answer)))
follow-resend_example =
    follow-resend functions controller controller_after (some unknown_answer) reports
      (arrived 0xFC604000) refl followed_lem refl resend_arrived

follow-IsKnown_example : IsKnown functions 1 controller_after
follow-IsKnown_example =
    follow-IsKnown functions 1 controller controller_after none (some unknown_answer) reports
      controller-IsKnown followed_lem

-- The first player asks for the shutdown.
abbrev shutdown_packet : MaplePacket
shutdown_packet = record (packet 4 0x20) {
  frame = record { command = 4; recipient_addr = 0x20; sender_addr = 0; length = 0 };
}

abbrev controller_taken : Main functions
controller_taken = record controller {
  base = record (plain_unit 0x20 1) { connected = false };
  player_index = some 0;
  sub_peripherals = record (plain_unit 1 0) { connected = false } ∷ [];
  read_count = 1;
  index_changes = some 0 ∷ none ∷ [];
}

abbrev taken_answer : Handled
taken_answer = record {
  out = record unknown_answer {
    frame = record { command = 0xFD; recipient_addr = 0; sender_addr = 0x21; length = 0 };
  };
  handled = true;
}

taken_lem :
    dispense_packet functions controller shutdown_packet make_default
    ≡ some (controller_taken, taken_answer)
unfolding dispense_packet handle_main set_player_index handle_packet addressed switch address_answer
    answer_unknown answer reset_main reset_peripheral after_handling set_words set_from_frame_word
    update_frame_length reset_packet make_default take_player set_addr_augmenter
taken_lem = refl

dispense_packet_addresses_example :
    (controller_taken.player_index ≡ some (0 / 64 % 4))
    × (taken_answer.out.frame.sender_addr
        ≡ bit_or controller_taken.base.addr (1 + 64 * (0 / 64 % 4)))
    × (taken_answer.out.frame.recipient_addr ≡ 0)
dispense_packet_addresses_example =
    dispense_packet_addresses functions 1 controller controller_taken shutdown_packet make_default
      taken_answer controller-IsKnown refl refl (omega arith) taken_lem

abbrev controller_forgetting : Main functions
controller_forgetting = record controller {
  sub_peripherals = record (plain_unit 1 0) { connected = false } ∷ [];
}

abbrev reset_answer : Handled
reset_answer = record {
  out = record unknown_answer {
    frame = record { command = 7; recipient_addr = 0x40; sender_addr = 1; length = 0 };
  };
  handled = true;
}

reset_lem :
    dispense_packet functions controller (packet 3 0x41) make_default
    ≡ some (controller_forgetting, reset_answer)
unfolding dispense_packet handle_main set_player_index handle_packet addressed switch address_answer
    answer_unknown answer reset_main reset_peripheral after_handling set_words set_from_frame_word
    update_frame_length reset_packet make_default handle_sub
reset_lem = refl

-- Then the same player asks the main peripheral for the shutdown.
abbrev controller_asked : Main functions
controller_asked = record controller_forgetting { read_count = 1 }

abbrev asked_answer : Handled
asked_answer = record {
  out = record unknown_answer {
    frame = record { command = 7; recipient_addr = 0x40; sender_addr = 0x61; length = 0 };
  };
  handled = true;
}

asked_lem :
    dispense_packet functions controller_forgetting (packet 4 0x20) make_default
    ≡ some (controller_asked, asked_answer)
unfolding dispense_packet handle_main set_player_index handle_packet addressed switch address_answer
    answer_unknown answer reset_main reset_peripheral after_handling set_words set_from_frame_word
    update_frame_length reset_packet make_default take_player set_addr_augmenter
asked_lem = refl

sub_reset_forgets_example :
    IsForgotten functions controller controller_forgetting
    × (controller_asked.sub_peripherals ≡ controller_forgetting.sub_peripherals)
    × (controller_asked.player_index ≡ some 1)
sub_reset_forgets_example =
    sub_reset_forgets functions controller controller_forgetting controller_asked memory_unit 1
      (packet 3 0x41) make_default (packet 4 0x20) make_default reset_answer asked_answer refl refl
      refl refl (inl refl) refl (omega arith) refl refl reset_lem refl refl (omega arith) asked_lem
