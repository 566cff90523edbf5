-- ===== src/Lib.antt =====
-- DreamPicoPort connects Dreamcast controllers, memory units and other peripherals to USB, or acts as
-- such peripherals, on a Raspberry Pi Pico. This library models the parts of it that carry its logic: the
-- packets of the Maple bus and the bus itself, the schedule of what goes over a bus and the loop that
-- sends it, the two parsers of what a computer sends (a terminal and WebUSB), the data of a screen, the
-- memory and the settings that are kept in flash, and an emulated peripheral with the storage of a
-- memory unit.
--
-- Prelude: Boolean tests, lists measured by native numbers, fixed-width words, and bit operations as
--   arithmetic (Bits, Xor).
-- Frame, Packet: inc/hal/MapleBus/MaplePacket.hpp. The uint8_t and uint32_t fields are numbers, every
--   cast written out; IsFrame says that the fields of a frame are bytes.
-- Transmission: src/hostLib/Transmission.hpp, and how long PrioritizedTxScheduler::add expects one to
--   take.
-- Scheduler: src/hostLib/PrioritizedTxScheduler.cpp and .hpp. The schedule is a list of lists, one for
--   each priority. Lanes has the invariant, History the calls that keep it, Picks what peekNext finds.
-- Timeliner: src/hostLib/TransmissionTimeliner.cpp and .hpp. readTask and writeTask share one bus and
--   one schedule. The bus (inc/hal/MapleBus/MapleBusInterface.hpp) is an interface: a record of its
--   operations and of what its documentation promises of isBusy.
-- MapleBus: src/hal/MapleBus/MapleBus.cpp and .hpp. The operations of the class; Events has
--   processEvents by phase, Crc the CRC byte, Loopback what is sent as it is read, Phases the state
--   machines and the direction over a history with interrupts, Timeouts when a transfer is given up.
--   Interface fills the record of Timeliner with this bus.
-- Endpoint: src/hostLib/EndpointTxScheduler.cpp and .hpp and EndpointTxSchedulerInterface.hpp, one
--   peripheral's view of the schedule.
-- Serial: src/hostLib/tty_parsers/SerialStreamParser.cpp and .hpp. Framing sees the buffer as the
--   commands in it, Lines and Sessions follow what is typed, Erased what backspaces do, Limit how long
--   the buffer gets.
-- NetworkBytes, WebUsb: inc/hal/Usb/WebUsbProcessorBase.hpp. Automaton takes one byte at a time; Magic,
--   Reception, Consumption and Equivalence lead the loops of process back to it, Portions splits the
--   bytes that come in, Stray has what hides a packet; Sending has the other direction, Headers, Decoding and Encoding the round trip;
--   Queues the limits and the reset.
-- Screen: src/hostLib/ScreenData.cpp and .hpp.
-- Memory: inc/hal/System/SystemMemory.hpp, src/hal/System/VolatileSystemMemory.cpp and, in NonVolatile,
--   src/hal/System/NonVolatilePicoSystemMemory.cpp. Queue has the sectors that a write adds, Backup and
--   Writes what process and write leave of the copy in flash, History both over any interleaving of the
--   two cores, Restart the constructor. A flash chip is an interface, with what the header of the class
--   says of a sector.
-- Storage: src/clientLib/DreamcastStorage.cpp and .hpp, over an interface of SystemMemory that Volatile
--   fills. Commands has handlePacket, Format the format with its FAT, Transfers and RoundTrip the
--   writing and reading of a block, Answers what is answered.
-- Peripheral: src/clientLib/DreamcastPeripheral.cpp and .hpp, over an interface of
--   DreamcastPeripheralFunction.hpp that StorageUnit fills with the storage. Answers has what becomes of a
--   packet, Codes the map of the functions.
-- MainPeripheral: src/clientLib/DreamcastMainPeripheral.cpp and .hpp. Tasks has the task, over an
--   interface of the bus; Keeps and Resends what is sent again, Addresses, SubAddresses, Players and
--   Answers the player in the addresses, SubResets a reset of a sub-peripheral,
--   SubPeripherals the list of the sub-peripherals.
-- Settings: inc/hal/System/DppSettings.hpp and src/hal/System/DppSettings.cpp. Pins, Active, Validity and
--   Checked are about makeValid; Layout has the words in flash, Crc, Fields, RoundTrip and Damage what is
--   read of them; Requests and Saves the requests to save.
-- SettingsCommands: src/hostLib/webusb_parsers/SettingsWebUsbCommandHandler.cpp and .hpp, the commands of
--   a web page over the settings of Settings. Packing has settings as bytes, Refusals the commands that
--   are refused, Storable and Saved what they leave to be saved, Written what reaches the flash with the
--   rounds of the other core.
--
-- The loops of WebUsb run on fuel. Each round of process takes at least one byte, and so does each
-- failed header, so that one more than the bytes at hand is enough; process gives that much. The writes
-- of zeros have as many rounds as zeros. All other loops are structural.
--
-- A failed assertion is `none`, or a result of its own in Screen. What hardware reads (the clock, the
-- lines of a bus, the words that a DMA channel transferred) is an argument of the operation that reads
-- it. Not modelled: the mutexes of the components (each operation is one step), printing and memory
-- capacity; the PIO programs and the libraries under hal/; the nodes and peripherals of the host, the
-- command handlers but for the settings, and the client library but for its storage, its main peripheral, and the dispatch of
-- packets to the functions of a peripheral, whose device information is given.
pub mod Prelude
pub mod Frame
pub mod Packet
pub mod Transmission
pub mod Scheduler
pub mod Timeliner
pub mod Endpoint
pub mod Serial
pub mod NetworkBytes
pub mod WebUsb
pub mod Screen
pub mod MapleBus
pub mod Memory
pub mod Storage
pub mod Peripheral
pub mod Settings
pub mod SettingsCommands
pub mod MainPeripheral
