-- ===== src/Peripheral.antt =====
-- src/clientLib/DreamcastPeripheral.cpp and .hpp, and the interface DreamcastPeripheralFunction.hpp:
-- an emulated peripheral, which hands packets on to its functions. The functions are a parameter; a
-- std::map from codes to functions is the list of them, by rising code.
pub mod Answers
pub mod Codes
pub mod Augmenter
pub mod StorageUnit
pub mod Tests
use dream_pico_port.Prelude.{
  ℕ, zero, suc, ◌+◌, ◌-◌, ◌≡◌, Bool, true, false, not, ◌&&◌, ◌||◌, ◌==◌, ltb, leb, bit_and, bit_or,
  u32, if◌then◌else◌, List, [], ◌∷◌, map, length, take, set, replicate, get_or, Option, none, some,
}
use dream_pico_port.Frame.{host}
use dream_pico_port.Packet.{MaplePacket, set_payload, update_frame_length}
use dream_pico_port.Storage.{Handled, with_command, command_response_ack}

-- A peripheral function: its code never changes.
pub record Functions : Type 1 where
  pub Function : Type 0
  pub function_code : Function → ℕ
  pub function_definition : Function → ℕ
  pub handle : Function → MaplePacket → MaplePacket → Function × Handled
  pub reset : Function → Function
  pub handle_code :
      (f : Function) (p out : MaplePacket) → function_code (handle f p out).0 ≡ function_code f
  pub reset_code : (f : Function) → function_code (reset f) ≡ function_code f

abbrev pub max_number_of_functions : ℕ
max_number_of_functions = 3

-- ~PLAYER_ID_ADDR_MASK in a uint8_t
abbrev pub not_player_id_addr_mask : ℕ
not_player_id_addr_mask = 0x3F

abbrev pub command_response_not_supported : ℕ
command_response_not_supported = 0xFE

-- The three slots of the function definitions, in words 1 to 3.
unfoldable pub set_slots : ℕ → ℕ → List ℕ → List ℕ → List ℕ
set_slots zero pt definitions info = info
set_slots (suc slots) pt [] info = set_slots slots (suc pt) [] (set info pt 0)
set_slots (suc slots) pt (d ∷ definitions) info =
    set_slots slots (suc pt) definitions (set info pt d)

-- From the largest code downwards.
abbrev pub reversed {ℓ} : {A : Type ℓ} → List A → List A → List A
reversed [] onto = onto
reversed (x ∷ xs) onto = reversed xs (x ∷ onto)

-- The answer's frame: its sender, its recipient and its length.
unfoldable pub address_answer : ℕ → MaplePacket → Handled → Handled
address_answer address p h = record {
  out = update_frame_length (record (h.out) {
    frame = record (h.out.frame) { sender_addr = address; recipient_addr = p.frame.sender_addr };
  });
  handled = h.handled;
}

-- The commands that go to a function.
abbrev pub is_function_command : ℕ → Bool
is_function_command command = leb 9 command && leb command 0xE

abbrev pub is_info_request : ℕ → Bool
is_info_request command = command == 1 || command == 2

module _ (functions : Functions) where
  open functions use {Function, function_code, function_definition, handle, reset}

  pub record Peripheral : Type 0 where
    pub addr : ℕ
    pub connected : Bool
    pub addr_augmenter : ℕ
    pub devices : List Function
    pub dev_info : List ℕ

  abbrev pub get_address : Peripheral → ℕ
  get_address d = bit_or d.addr d.addr_augmenter

  unfoldable pub set_addr_augmenter : Peripheral → ℕ → Peripheral
  set_addr_augmenter d augmenter = record d { addr_augmenter = augmenter }

  unfoldable pub set_function_definitions : Peripheral → Peripheral
  set_function_definitions d = record d {
    dev_info =
        set_slots max_number_of_functions 1 (map function_definition (reversed d.devices []))
          d.dev_info;
  }

  unfoldable pub insert_function : Function → List Function → List Function
  insert_function f [] = f ∷ []
  insert_function f (g ∷ gs) =
      if ltb (function_code f) (function_code g)
      then f ∷ g ∷ gs
      else let rest = insert_function f gs in
        if function_code f == function_code g then g ∷ gs else g ∷ rest

  -- A fourth function is a failed assertion.
  unfoldable add_function : Peripheral → Function → Option Peripheral
  add_function d f =
      let devices = insert_function f d.devices in
      if leb (length devices) max_number_of_functions
      then some (
          set_function_definitions (record d {
            devices = devices;
            dev_info = set d.dev_info 0 (bit_or (get_or d.dev_info 0 0) (function_code f));
          }))
      else none

  erase_function : ℕ → List Function → List Function
  erase_function code [] = []
  erase_function code (g ∷ gs) =
      let rest = erase_function code gs in if function_code g == code then gs else g ∷ rest

  unfoldable pub find_function : ℕ → List Function → Option Function
  find_function code [] = none
  find_function code (g ∷ gs) =
      let rest = find_function code gs in if function_code g == code then some g else rest

  -- `&= ~code` on a uint32_t.
  unfoldable remove_function : Peripheral → ℕ → Peripheral × Bool
  unfolding erase_function
  remove_function d code = elim (find_function code d.devices) [
    | none ↦ (d, false)
    | some f ↦ (
      set_function_definitions (record d {
        devices = erase_function code d.devices;
        dev_info =
            set d.dev_info 0 (bit_and (get_or d.dev_info 0 0) (0xFFFFFFFF - function_code f));
      }),
      true,
    )
  ]

  unfoldable pub reset_peripheral : Peripheral → Peripheral
  reset_peripheral d = record d {
    connected = false;
    addr_augmenter = bit_and d.addr_augmenter not_player_id_addr_mask;
    devices = map reset d.devices;
  }

  -- The function with a code handles the packet, in its place; `none` if there is no such function.
  unfoldable pub dispatch :
      ℕ → List Function → MaplePacket → MaplePacket → Option (List Function × Handled)
  dispatch code [] p out = none
  dispatch code (g ∷ gs) p out =
      let rest = dispatch code gs p out in
      if function_code g == code
      then some ((handle g p out).0 ∷ gs, (handle g p out).1)
      else elim rest [ none ↦ none | some r ↦ some (g ∷ r.0, r.1) ]

  pub function_answer :
      Peripheral → MaplePacket → Option (List Function × Handled) → Peripheral × Handled
  function_answer d out none =
      (d, record { out = with_command out command_response_not_supported; handled = true })
  function_answer d out (some (devices, h)) = (record d { devices = devices }, h)

  -- A command for a function, by the payload; without a payload its first word is read out of bounds.
  unfoldable pub function_command :
      Peripheral → MaplePacket → MaplePacket → List ℕ → Option (Peripheral × Handled)
  unfolding function_answer
  function_command d p out [] = none
  function_command d p out (code ∷ words) =
      some (function_answer d out (dispatch code d.devices p out))

  pub info_answer : Peripheral → MaplePacket → ℕ → ℕ → Peripheral × Handled
  info_answer d out command words =
      let e = set_function_definitions d in
      (
        e,
        record {
          out = set_payload (with_command out command) (take words e.dev_info) host;
          handled = true;
        },
      )

  -- The switch of handlePacket.
  unfoldable pub switch : Peripheral → MaplePacket → MaplePacket → Option (Peripheral × Handled)
  unfolding info_answer
  switch d p out =
      let command = p.frame.command in
      let acked : Handled = record {
        out = with_command out command_response_ack;
        handled = true;
      } in
      if command == 1
      then some (info_answer d out 5 28)
      else if command == 2
      then some (info_answer d out 6 48)
      else if command == 3
      then some (reset_peripheral d, acked)
      else if command == 4
      then some (d, acked)
      else if is_function_command command
      then function_command d p out p.payload
      else some (d, record { out = out; handled = false })

  -- The answer leaves with the address that the peripheral has after the command.
  unfoldable pub addressed :
      MaplePacket → Option (Peripheral × Handled) → Option (Peripheral × Handled)
  addressed p none = none
  addressed p (some (d, h)) = some (d, address_answer (get_address d) p h)

  unfoldable pub handle_packet :
      Peripheral → MaplePacket → MaplePacket → Option (Peripheral × Handled)
  handle_packet d p out =
      let e = record d { connected = d.connected || is_info_request p.frame.command } in
      addressed p
        (if e.connected then switch e p out else some (e, record { out = out; handled = false }))
