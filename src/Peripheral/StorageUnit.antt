-- ===== src/Peripheral/StorageUnit.antt =====
-- src/clientLib/DreamcastStorage.cpp as the function of a peripheral.
use dream_pico_port.Prelude.{refl}
use dream_pico_port.Storage.{SystemMemory, Storage, device_fn_storage, storage_function_definition}
use dream_pico_port.Storage.Commands.{handle_packet}
use dream_pico_port.Peripheral.{Functions}

abbrev pub storage_functions : SystemMemory → Functions
storage_functions memory = record {
  Function = Storage memory;
  function_code = λ f. device_fn_storage;
  function_definition = λ f. storage_function_definition;
  handle = handle_packet memory;
  reset = λ f. f;
  handle_code = λ f p out. refl;
  reset_code = λ f. refl;
}
