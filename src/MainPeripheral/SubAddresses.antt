-- ===== src/MainPeripheral/SubAddresses.antt =====
-- src/clientLib/DreamcastMainPeripheral.cpp: the player in the addresses of the sub-peripherals.
use dream_pico_port.Prelude.{
  ℕ, ◌*◌, ◌≡◌, ◌⊎◌, sym, subst, ◌&&◌, ◌==◌, List, [], ◌∷◌, All, Outcome, if_both, Option, none,
  some, inr,
}
use dream_pico_port.Packet.{MaplePacket}
use dream_pico_port.Storage.{Handled}
use dream_pico_port.Peripheral.{Functions, Peripheral, handle_packet}
use dream_pico_port.Peripheral.Augmenter.{IsAugmented, augmenter_after, handle_packet_augmenter}
use dream_pico_port.MainPeripheral.{
  command_reset, handle_sub, SubsHandled, handled_sub, passed_on, dispensed_sub,
}
use dream_pico_port.MainPeripheral.Tasks.{Main}
use dream_pico_port.MainPeripheral.Addresses.{index, HasPlayer, IsKnown, sub_cleared}

module _ (functions : Functions) where
  sub_after :
      (idx : ℕ) (s s' : Peripheral functions) (p : MaplePacket)
      → HasPlayer functions idx s
      → s'.addr_augmenter ≡ augmenter_after functions s.connected s p
      → HasPlayer functions idx s'
  sub_after idx s s' p h same =
      let IsPlayed = λ (a : ℕ). (a ≡ 64 * idx) ⊎ (a ≡ 0) in
      subst IsPlayed (sym same) (
        if_both IsPlayed (s.connected && p.frame.command == command_reset)
          (inr (sub_cleared functions idx s h)) h)

  abbrev pub AllPlayed : ℕ → Option (List (Peripheral functions) × Handled) → Type 0
  AllPlayed idx r = Outcome (λ x. All (HasPlayer functions idx) x.0) r

  handled_sub-AllPlayed :
      (idx : ℕ) (s : Peripheral functions) (subs : List (Peripheral functions)) (p : MaplePacket)
      (o : Option (Peripheral functions × Handled))
      → HasPlayer functions idx s
      → All (HasPlayer functions idx) subs
      → Outcome (IsAugmented functions (augmenter_after functions s.connected s p)) o
      → Outcome (AllPlayed idx) (handled_sub functions subs o)
  handled_sub-AllPlayed idx s subs p none h hs same = tt
  handled_sub-AllPlayed idx s subs p (some (s', r)) h hs same = (sub_after idx s s' p h same, hs)

  passed_on-AllPlayed :
      (idx : ℕ) (s : Peripheral functions) (r : SubsHandled functions)
      → HasPlayer functions idx s
      → Outcome (AllPlayed idx) r
      → Outcome (AllPlayed idx) (passed_on functions s r)
  passed_on-AllPlayed idx s none h hs = tt
  passed_on-AllPlayed idx s (some none) h hs = tt
  passed_on-AllPlayed idx s (some (some r)) h hs = (h, hs)

  pub handle_sub-AllPlayed :
      (idx addr : ℕ) (subs : List (Peripheral functions)) (p out : MaplePacket)
      → All (HasPlayer functions idx) subs
      → Outcome (AllPlayed idx) (handle_sub functions addr subs p out)
  unfolding handle_sub
  handle_sub-AllPlayed idx addr [] p out h = tt
  handle_sub-AllPlayed idx addr (s ∷ subs) p out (h, hs) =
      let this =
        handled_sub-AllPlayed idx s subs p (handle_packet functions s p out) h hs
          (handle_packet_augmenter functions s p out) in
      let other = passed_on-AllPlayed idx s _ h (handle_sub-AllPlayed idx addr subs p out hs) in
      if_both (Outcome (AllPlayed idx)) (s.addr == addr) this other

  pub dispensed_sub-IsKnown :
      (mask : ℕ) (d : Main functions) (out : MaplePacket) (r : SubsHandled functions)
      → IsKnown functions mask d
      → Outcome (AllPlayed (index d.player_index)) r
      → Outcome (λ x. IsKnown functions mask x.0) (dispensed_sub functions d out r)
  dispensed_sub-IsKnown mask d out none k h = tt
  dispensed_sub-IsKnown mask d out (some none) k h = k
  dispensed_sub-IsKnown mask d out (some (some r)) k h = record {
    low = k.low;
    player = k.player;
    own = k.own;
    subs = h;
  }
