-- ===== src/MainPeripheral/Addresses.antt =====
-- src/clientLib/DreamcastMainPeripheral.cpp: the player in the addresses.
use dream_pico_port.Prelude.{
  ℕ, ◌+◌, ◌*◌, ◌/◌, ◌%◌, ◌^◌, ◌<◌, ◌≡◌, ◌⊎◌, ◌∙◌, ap, Bool, true, false, not, ◌&&◌, ◌||◌, ◌==◌,
  bit_and, bit_or, if◌then◌else◌, List, [], ◌∷◌, map, All, Outcome, if_both, Option, none, some,
  inl, inr, arith,
}
use dream_pico_port.Prelude.Bits.{bit_and_low, bit_and_shifted, bit_or_add, bit_or_comm}
use dream_pico_port.Packet.{MaplePacket}
use dream_pico_port.Storage.{Handled}
use dream_pico_port.Peripheral.{
  Functions, Peripheral, reset_peripheral, not_player_id_addr_mask, set_addr_augmenter,
}
use dream_pico_port.Peripheral.Augmenter.{IsAugmented, augmenter_after}
use dream_pico_port.MainPeripheral.{
  player_of, is_player, augmenter_mask, command_reset, reset_main, set_player_index, take_player,
  after_handling, handled_main, dispensed_main, reset_others,
}
use dream_pico_port.MainPeripheral.Tasks.{Main}

pub player_of_lem : (sender : ℕ) → player_of sender ≡ sender / 64 % 4
player_of_lem sender =
    ap (λ (t : ℕ). t / 64)
      (bit_and_shifted 6 3 sender ∙ ap (λ (t : ℕ). t * 64) (bit_and_low 2 (sender / 64)))
    ∙ omega arith

cleared : (mask k : ℕ) → mask < 64 → bit_and (mask + 64 * k) not_player_id_addr_mask ≡ mask
cleared mask k h = bit_and_low 6 (mask + 64 * k) ∙ omega arith

joined : (mask idx : ℕ) → mask < 64 → idx < 4 → bit_or mask (augmenter_mask idx) ≡ mask + 64 * idx
joined mask idx h k =
    let small : augmenter_mask idx ≡ idx * 2 ^ 6 = omega arith in
    bit_or_comm mask (augmenter_mask idx)
    ∙ bit_or_add 6 idx (augmenter_mask idx) mask small h
    ∙ omega (arith, small)

unplayed : (k : ℕ) → bit_and (64 * k) not_player_id_addr_mask ≡ 0
unplayed k = bit_and_low 6 (64 * k) ∙ omega arith

-- The player in the two bits of an address; with none they are 0.
abbrev pub index : Option ℕ → ℕ
index none = 0
index (some idx) = idx

module _ (functions : Functions) where
  -- A sub-peripheral has the bits of a player, or those of none.
  abbrev pub HasPlayer : ℕ → Peripheral functions → Type 0
  HasPlayer idx s = (s.addr_augmenter ≡ 64 * idx) ⊎ (s.addr_augmenter ≡ 0)

  -- The main peripheral adds to its address a mask, which stands for its sub-peripherals, and the bits
  -- of the player, and the sub-peripherals have these or none.
  pub record IsKnown (mask : ℕ) (d : Main functions) : Type 0 where
    pub low : mask < 64
    pub player : index d.player_index < 4
    pub own : d.base.addr_augmenter ≡ mask + 64 * index d.player_index
    pub subs : All (HasPlayer (index d.player_index)) d.sub_peripherals

  reset_subs :
      (idx : ℕ) (subs : List (Peripheral functions))
      → All (HasPlayer idx) subs
      → All (HasPlayer 0) (map (reset_peripheral functions) subs)
  unfolding reset_peripheral
  reset_subs idx [] h = tt
  reset_subs idx (s ∷ subs) (inl same, h) = (
    inr (ap (λ (a : ℕ). bit_and a not_player_id_addr_mask) same ∙ unplayed idx),
    reset_subs idx subs h,
  )
  reset_subs idx (s ∷ subs) (inr same, h) = (
    inr (ap (λ (a : ℕ). bit_and a not_player_id_addr_mask) same ∙ unplayed 0),
    reset_subs idx subs h,
  )

  taken_subs :
      (idx : ℕ) (subs : List (Peripheral functions))
      → idx < 4
      → All (HasPlayer idx) (
          map
            (λ (s : Peripheral functions). set_addr_augmenter functions s (augmenter_mask idx))
            subs)
  unfolding set_addr_augmenter
  taken_subs idx [] h = tt
  taken_subs idx (s ∷ subs) h = (inl (omega arith), taken_subs idx subs h)

  pub sub_cleared :
      (idx : ℕ) (s : Peripheral functions)
      → HasPlayer idx s
      → bit_and s.addr_augmenter not_player_id_addr_mask ≡ 0
  sub_cleared idx s (inl same) =
      ap (λ (a : ℕ). bit_and a not_player_id_addr_mask) same ∙ unplayed idx
  sub_cleared idx s (inr same) = ap (λ (a : ℕ). bit_and a not_player_id_addr_mask) same ∙ unplayed 0

  module _ (mask : ℕ) where
    reset_others-IsKnown :
        (d : Main functions) (idx : ℕ)
        → mask < 64
        → d.base.addr_augmenter ≡ mask
        → All (HasPlayer idx) d.sub_peripherals
        → IsKnown mask (reset_others functions d)
    unfolding reset_others
    reset_others-IsKnown d idx low own subs = record {
      low = low;
      player = omega arith;
      own = own ∙ omega arith;
      subs = reset_subs idx d.sub_peripherals subs;
    }

    own_cleared :
        (d : Main functions)
        → IsKnown mask d
        → bit_and d.base.addr_augmenter not_player_id_addr_mask ≡ mask
    own_cleared d k =
        ap (λ (a : ℕ). bit_and a not_player_id_addr_mask) k.own
        ∙ cleared mask (index d.player_index) k.low

    pub reset_main-IsKnown :
        (d : Main functions) → IsKnown mask d → IsKnown mask (reset_main functions d)
    unfolding reset_main reset_peripheral
    reset_main-IsKnown d k =
        reset_others-IsKnown (record d { base = reset_peripheral functions d.base })
          (index d.player_index) k.low (own_cleared d k) k.subs

    take_player-IsKnown :
        (d : Main functions) (idx : ℕ)
        → idx < 4
        → IsKnown mask d
        → IsKnown mask (take_player functions d idx)
    unfolding take_player set_addr_augmenter
    take_player-IsKnown d idx h k = record {
      low = k.low;
      player = h;
      own =
          ap (λ (a : ℕ). bit_or a (augmenter_mask idx)) (own_cleared d k) ∙ joined mask idx k.low h;
      subs = taken_subs idx d.sub_peripherals h;
    }

    pub set_player_index-IsKnown :
        (d : Main functions) (idx : ℕ)
        → idx < 4
        → IsKnown mask d
        → IsKnown mask (set_player_index functions d idx)
    unfolding set_player_index
    set_player_index-IsKnown d idx h k =
        let settled = if_both (IsKnown mask) d.base.connected (reset_main-IsKnown d k) k in
        if_both (IsKnown mask) (not d.base.connected || not (is_player idx d.player_index))
          (take_player-IsKnown (if d.base.connected then reset_main functions d else d) idx h
            settled)
          k

    after_handling-IsKnown :
        (d : Main functions) (resets : Bool) (r : Peripheral functions × Handled)
        → IsKnown mask d
        → r.0.addr_augmenter ≡ (
            if resets
            then bit_and d.base.addr_augmenter not_player_id_addr_mask
            else d.base.addr_augmenter)
        → IsKnown mask (after_handling functions d resets r).0
    unfolding after_handling
    after_handling-IsKnown d true (base, h) k same =
        reset_others-IsKnown (record d { base = base }) (index d.player_index) k.low
          (same ∙ own_cleared d k) k.subs
    after_handling-IsKnown d false (base, h) k same = record {
      low = k.low;
      player = k.player;
      own = same ∙ k.own;
      subs = k.subs;
    }

    pub handled_main-IsKnown :
        (d : Main functions) (p : MaplePacket) (o : Option (Peripheral functions × Handled))
        → IsKnown mask d
        → Outcome (IsAugmented functions (augmenter_after functions d.base.connected d.base p)) o
        → Outcome
            (λ x. IsKnown mask x.0)
            (handled_main functions d (d.base.connected && p.frame.command == command_reset) o)
    handled_main-IsKnown d p none k same = tt
    handled_main-IsKnown d p (some r) k same = after_handling-IsKnown d _ r k same

    pub dispensed_main-IsKnown :
        (o : Option (Main functions × Handled))
        → Outcome (λ x. IsKnown mask x.0) o
        → Outcome (λ x. IsKnown mask x.0) (dispensed_main functions o)
    dispensed_main-IsKnown none k = tt
    dispensed_main-IsKnown (some r) k = k
