-- ===== src/Packet/Tests.antt =====
-- A packet that the theorems are applied to.
use dream_pico_port.Prelude.{refl, [], ◌∷◌}
use dream_pico_port.Frame.{host, network}
use dream_pico_port.Packet.{MaplePacket}
use dream_pico_port.Packet.Contents.{IsConsistent, appends, operate, operate-IsConsistent}

-- A command to a controller, its one payload word in network order.
abbrev command_packet : MaplePacket
command_packet = record {
  frame = record { command = 9; recipient_addr = 0x20; sender_addr = 0; length = 1 };
  payload = 0x01000000 ∷ [];
  payload_byte_order = network;
}

abbrev empty_packet : MaplePacket
empty_packet = record {
  frame = record { command = 1; recipient_addr = 0x20; sender_addr = 0; length = 0 };
  payload = [];
  payload_byte_order = host;
}

operate-IsConsistent_example : IsConsistent (operate (appends (1 ∷ 2 ∷ []) host) command_packet)
operate-IsConsistent_example =
    operate-IsConsistent (appends (1 ∷ 2 ∷ []) host) command_packet (λ o e. cc e) refl
