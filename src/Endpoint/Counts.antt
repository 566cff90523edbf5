-- ===== src/Endpoint/Counts.antt =====
-- EndpointTxScheduler::add and countRecipients: transmissions counted through an endpoint.
use dream_pico_port.Prelude.{ℕ, ◌+◌, ◌≡◌, ◌==◌, some, if◌then◌else◌}
use dream_pico_port.Packet.{make}
use dream_pico_port.Transmission.{TransmitterRef, recipient_of}
use dream_pico_port.Scheduler.{Scheduler, make_transmission, count_recipients}
use dream_pico_port.Scheduler.Order.{one_if}
use dream_pico_port.Scheduler.Invariant.{Added, add-Added, count_lists-inserted}
use dream_pico_port.Endpoint.{
  EndpointTxScheduler, TransmissionProperties, to_scheduler_properties, endpoint_add,
  endpoint_count_recipients,
}

-- A transmission that is added through an endpoint counts once more for the endpoint's recipient,
-- and leaves the count for any other as it was.
endpoint_add-count :
    (e : EndpointTxScheduler) (s s' : Scheduler) (p : TransmissionProperties) (t : TransmitterRef)
    (id addr : ℕ)
    → endpoint_add e s p t ≡ some (s', id)
    → endpoint_count_recipients e s' addr
      ≡ endpoint_count_recipients e s addr + (if e.recipient_addr == addr then 1 else 0)
unfolding endpoint_add endpoint_count_recipients count_recipients make_transmission one_if
    to_scheduler_properties make
endpoint_add-count e s s' p t id addr h =
    let q = to_scheduler_properties p e.fixed_priority e.recipient_addr in
    let a : Added s s' q t = add-Added s s' q t id h in
    rw a.result (
      count_lists-inserted (λ tx. recipient_of tx == addr) s.schedule (make_transmission s q t)
        a.in_range)
