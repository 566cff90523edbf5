-- ===== src/Peripheral/Tests.antt =====
-- A memory unit in RAM as a peripheral.
use dream_pico_port.Prelude.{false, [], ◌∷◌, replicate}
use dream_pico_port.Frame.{host}
use dream_pico_port.Packet.{MaplePacket}
use dream_pico_port.Memory.{make_volatile}
use dream_pico_port.Memory.Bytes.{IsSized}
use dream_pico_port.Memory.Sectors.{length-replicate}
use dream_pico_port.Storage.{make_storage}
use dream_pico_port.Storage.Volatile.{clocked_memory}
use dream_pico_port.Peripheral.{Functions, Peripheral}
use dream_pico_port.Peripheral.StorageUnit.{storage_functions}

abbrev functions : Functions
functions = storage_functions clocked_memory

small-IsSized : IsSized (make_volatile 512)
unfolding make_volatile
small-IsSized = length-replicate 512 0xFF

abbrev memory_unit : Peripheral functions
memory_unit = record {
  addr = 1;
  connected = false;
  addr_augmenter = 0;
  devices =
      make_storage clocked_memory
        (record { memory = make_volatile 512; sized = small-IsSized; now = 0 }) 0
      ∷ [];
  dev_info = replicate 48 0;
}

abbrev command_packet : MaplePacket
command_packet = record {
  frame = record { command = 9; recipient_addr = 1; sender_addr = 0; length = 0 };
  payload = [];
  payload_byte_order = host;
}
