-- ===== src/Endpoint/Tests.antt =====
-- A transmission added through the endpoint of a controller.
use dream_pico_port.Prelude.{ℕ, ◌≡◌, refl, true, [], Option, none, some}
use dream_pico_port.Frame.{host}
use dream_pico_port.Transmission.{raw}
use dream_pico_port.Scheduler.{Scheduler, init, add}
use dream_pico_port.Endpoint.{
  EndpointTxScheduler, TransmissionProperties, to_scheduler_properties, endpoint_add,
}

abbrev controller : EndpointTxScheduler
controller = record { fixed_priority = 1; recipient_addr = 0x20 }

abbrev status_request : TransmissionProperties
status_request = record {
  tx_time = 0;
  command = 1;
  payload = [];
  expect_response = true;
  expected_response_num_payload_words = 28;
  auto_repeat_us = 0;
  auto_repeat_end_time_us = 0;
  rx_byte_order = host;
}

abbrev state_of : Option (Scheduler × ℕ) → Scheduler × ℕ
state_of none = (record { sender_address = 0; next_id = 0; schedule = [] }, 0)
state_of (some r) = r

unfoldable added : Scheduler × ℕ
added = state_of (endpoint_add controller (init 0 2) status_request (raw 7))

added-result : endpoint_add controller (init 0 2) status_request (raw 7) ≡ some (added.0, added.1)
unfolding added endpoint_add init add to_scheduler_properties
added-result = refl
