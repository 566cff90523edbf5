-- ===== src/Endpoint.antt =====
-- src/hostLib/EndpointTxScheduler.cpp and EndpointTxSchedulerInterface.hpp: one peripheral's view of the
-- shared schedule, at a fixed priority and for a fixed recipient.
pub mod Counts
pub mod Tests
use dream_pico_port.Prelude.{ℕ, Bool, List, Option}
use dream_pico_port.Frame.{ByteOrder, host, Frame}
use dream_pico_port.Packet.{MaplePacket, make}
use dream_pico_port.Transmission
use dream_pico_port.Transmission.{TransmitterRef}
use dream_pico_port.Scheduler
use dream_pico_port.Scheduler.{Scheduler}

pub record EndpointTxScheduler : Type 0 where
  pub fixed_priority : ℕ
  pub recipient_addr : ℕ

pub record TransmissionProperties : Type 0 where
  pub tx_time : ℕ
  pub command : ℕ
  pub payload : List ℕ
  pub expect_response : Bool
  pub expected_response_num_payload_words : ℕ
  pub auto_repeat_us : ℕ
  pub auto_repeat_end_time_us : ℕ
  pub rx_byte_order : ByteOrder

unfoldable pub to_scheduler_properties :
    TransmissionProperties → ℕ → ℕ → Transmission.TransmissionProperties
to_scheduler_properties p priority recipient_addr = record {
  priority = priority;
  tx_time = p.tx_time;
  packet =
      make
        (record {
          command = p.command;
          recipient_addr = recipient_addr;
          sender_addr = 0;
          length = 0;
        })
        p.payload host;
  expect_response = p.expect_response;
  expected_response_num_payload_words = p.expected_response_num_payload_words;
  auto_repeat_us = p.auto_repeat_us;
  auto_repeat_end_time_us = p.auto_repeat_end_time_us;
  rx_byte_order = p.rx_byte_order;
}

-- Both overloads of `add`.
unfoldable pub endpoint_add :
    EndpointTxScheduler
    → Scheduler
    → TransmissionProperties
    → TransmitterRef
    → Option (Scheduler × ℕ)
endpoint_add e s p t =
    Scheduler.add s (to_scheduler_properties p e.fixed_priority e.recipient_addr) t

-- The other operations are the schedule's own.
unfoldable pub endpoint_cancel_by_id : EndpointTxScheduler → Scheduler → ℕ → Scheduler × ℕ
endpoint_cancel_by_id e s id = Scheduler.cancel_by_id s id

unfoldable pub endpoint_cancel_by_recipient : EndpointTxScheduler → Scheduler → ℕ → Scheduler × ℕ
endpoint_cancel_by_recipient e s addr = Scheduler.cancel_by_recipient s addr

unfoldable pub endpoint_count_recipients : EndpointTxScheduler → Scheduler → ℕ → ℕ
endpoint_count_recipients e s addr = Scheduler.count_recipients s addr

unfoldable pub endpoint_cancel_all : EndpointTxScheduler → Scheduler → Scheduler × ℕ
endpoint_cancel_all e s = Scheduler.cancel_all s
