-- ===== src/Peripheral/Answers.antt =====
-- src/clientLib/DreamcastPeripheral.cpp, handlePacket: what is answered, and when nothing is.
use dream_pico_port.Prelude.{
  ℕ, ◌≡◌, ◌↔◌, refl, subst, sym, ◌∙◌, true, false, ◌||◌, List, [], ◌∷◌, All, Option, some, none,
  arith, Bool-cases, some_inj, inl, inr,
}
use dream_pico_port.Packet.{MaplePacket, update_frame_length}
use dream_pico_port.Packet.Contents.{IsConsistent}
use dream_pico_port.Storage.{Handled}
use dream_pico_port.Peripheral.{
  Functions, Peripheral, get_address, address_answer, is_function_command, is_info_request,
  function_command, switch, addressed, handle_packet,
}

module _ (functions : Functions) where
  addressed-none :
      (p : MaplePacket) (r : Option (Peripheral functions × Handled))
      → (addressed functions p r ≡ none) ↔ (r ≡ none)
  unfolding addressed
  addressed-none p none = (λ e. refl, λ e. refl)
  addressed-none p (some r) = (λ e. absurd (cc e), λ e. absurd (cc e))

  function_command-none :
      (d : Peripheral functions) (p out : MaplePacket) (payload : List ℕ)
      → (function_command functions d p out payload ≡ none) ↔ (payload ≡ [])
  unfolding function_command
  function_command-none d p out [] = (λ e. refl, λ e. refl)
  function_command-none d p out (code ∷ words) = (λ e. absurd (cc e), λ e. absurd (cc e))

  switch-none :
      (d : Peripheral functions) (p out : MaplePacket)
      → (switch functions d p out ≡ none)
        ↔ ((is_function_command p.frame.command ≡ true) × (p.payload ≡ []))
  unfolding switch
  switch-none d p out = ground (arith, function_command-none d p out p.payload)

  quiet_once :
      (d : Peripheral functions) (p out : MaplePacket)
      → (d.connected || is_info_request p.frame.command) ≡ false
      → handle_packet functions d p out
        ≡ some (
          record d { connected = false },
          address_answer (get_address functions d) p (record { out = out; handled = false }),
        )
  unfolding handle_packet addressed
  quiet_once d p out off = rw off refl

  never_none :
      (d : Peripheral functions) (p out : MaplePacket)
      → (d.connected || is_info_request p.frame.command) ≡ false
      → handle_packet functions d p out ≡ none
      → (d.connected ≡ true) × (is_function_command p.frame.command ≡ true) × (p.payload ≡ [])
  never_none d p out off h = let never = sym (quiet_once d p out off) ∙ h in absurd (cc never)

  -- A packet whose command is for a function, and which has no payload, makes a connected peripheral
  -- read its first word out of bounds; no other packet does.
  handle_packet-none :
      (d : Peripheral functions) (p out : MaplePacket)
      → (handle_packet functions d p out ≡ none)
        ↔ ((d.connected ≡ true) × (is_function_command p.frame.command ≡ true) × (p.payload ≡ []))
  unfolding handle_packet
  handle_packet-none d p out = elim (Bool-cases (d.connected || is_info_request p.frame.command)) [
    | inl on ↦
        let e : Peripheral functions = record d { connected = true } in
        (
          λ h.
              let (command, payload) =
                (switch-none e p out).0
                  ((addressed-none p (switch functions e p out)).0 (rw on at h)) in
              (ground (arith, on, command), command, payload),
          λ h. rw on (
              (addressed-none p (switch functions e p out)).1 ((switch-none e p out).1 (h.1, h.2))),
        )
    | inr off ↦ (λ h. never_none d p out off h, λ h. absurd (ground (arith, off, h.0)))
  ]

  -- An answer is addressed and its length counts its payload.
  pub record IsAddressed (address : ℕ) (p out : MaplePacket) : Type 0 where
    pub sender : out.frame.sender_addr ≡ address
    pub recipient : out.frame.recipient_addr ≡ p.frame.sender_addr
    pub consistent : IsConsistent out

  addressed-IsAddressed :
      (p : MaplePacket) (r : Option (Peripheral functions × Handled)) (d' : Peripheral functions)
      (h : Handled)
      → addressed functions p r ≡ some (d', h)
      → IsAddressed (get_address functions d') p h.out
  unfolding addressed address_answer update_frame_length
  addressed-IsAddressed p none d' h e = absurd (cc e)
  addressed-IsAddressed p (some (d, g)) d' h e =
      subst
        (λ (x : Peripheral functions × Handled). IsAddressed (get_address functions x.0) p x.1.out)
        (some_inj e) (record { sender = refl; recipient = refl; consistent = refl })

  -- Whatever a packet makes of a peripheral, what it leaves to send comes from the peripheral's address
  -- and goes to the packet's sender, with a length byte that counts the payload.
  pub handle_packet-IsAddressed :
      (d d' : Peripheral functions) (p out : MaplePacket) (h : Handled)
      → handle_packet functions d p out ≡ some (d', h)
      → IsAddressed (get_address functions d') p h.out
  unfolding handle_packet
  handle_packet-IsAddressed d d' p out h e = addressed-IsAddressed p _ d' h e

  -- The answers to packets, one after the other; `none` is a read out of bounds.
  unfoldable pub handle_all :
      Peripheral functions
      → List MaplePacket
      → MaplePacket
      → Option (Peripheral functions × List Handled)
  handle_all d [] out = some (d, [])
  handle_all d (p ∷ packets) out = elim (handle_packet functions d p out) [
    | none ↦ none
    | some r ↦ elim (handle_all r.0 packets out) [ none ↦ none | some s ↦ some (s.0, r.1 ∷ s.1) ]
  ]

  -- Packets that do not ask for device information.
  abbrev IsOther : MaplePacket → Type 0
  IsOther p = is_info_request p.frame.command ≡ false

  -- A peripheral that is not connected stays as it is, and handles no packet, until device information
  -- is requested.
  handle_all_quiet :
      (d : Peripheral functions) (packets : List MaplePacket) (out : MaplePacket)
      → d.connected ≡ false
      → All IsOther packets
      → (answers : List Handled) × (handle_all d packets out ≡ some (d, answers))
        × All (λ h. h.handled ≡ false) answers
  unfolding handle_all address_answer
  handle_all_quiet d [] out off others = ([], refl, tt)
  handle_all_quiet d (p ∷ packets) out off others =
      let silent : Handled =
        address_answer (get_address functions d) p (record { out = out; handled = false }) in
      let same = sym off in
      let once : handle_packet functions d p out ≡ some (d, silent) =
        quiet_once d p out (ground (arith, off, others.0))
        ∙ (λ i. some (record d { connected = same i }, silent)) in
      let (answers, rest, quiet) = handle_all_quiet d packets out off others.1 in
      (silent ∷ answers, rw (once, rest, handle_all) refl, (refl, quiet))
