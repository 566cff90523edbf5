-- ===== src/MainPeripheral/SubPeripherals.antt =====
-- src/clientLib/DreamcastMainPeripheral.cpp: sub-peripherals are added and removed.
use dream_pico_port.Prelude.{
  ℕ, ◌-◌, ◌≡◌, Bool, true, false, ◌==◌, ltb, bit_and, bit_or, if◌then◌else◌, List, [], All, ◌≤◌,
  if_both, if_true, if_false, ap, ◌∙◌, Bool-cases, inl, inr, ==_refl, arith, ◌∷◌, Option, none,
  some,
}
use dream_pico_port.Peripheral.{Functions, Peripheral, set_addr_augmenter}
use dream_pico_port.MainPeripheral.{MainPeripheral}

module _ (functions : Functions) where
  unfoldable find_sub : ℕ → List (Peripheral functions) → Option (Peripheral functions)
  find_sub addr [] = none
  find_sub addr (s ∷ subs) =
      let rest = find_sub addr subs in if s.addr == addr then some s else rest

  unfoldable insert_sub :
      Peripheral functions → List (Peripheral functions) → List (Peripheral functions)
  insert_sub p [] = p ∷ []
  insert_sub p (s ∷ subs) =
      let rest = insert_sub p subs in if ltb p.addr s.addr then p ∷ s ∷ subs else s ∷ rest

  unfoldable erase_sub : ℕ → List (Peripheral functions) → List (Peripheral functions)
  erase_sub addr [] = []
  erase_sub addr (s ∷ subs) =
      let rest = erase_sub addr subs in if s.addr == addr then subs else s ∷ rest

  -- `none` is a failed assertion.
  unfoldable add_sub_peripheral :
      MainPeripheral functions → Peripheral functions → Option (MainPeripheral functions)
  unfolding find_sub
  add_sub_peripheral d p = elim (find_sub p.addr d.sub_peripherals) [
    | some s ↦ none
    | none ↦
        if p.addr == d.base.addr
        then none
        else some (record d {
          sub_peripherals = insert_sub p d.sub_peripherals;
          base = set_addr_augmenter functions d.base (bit_or d.base.addr_augmenter p.addr);
        })
  ]

  -- `&= ~addr` on a uint8_t.
  unfoldable remove_sub_peripheral : MainPeripheral functions → ℕ → MainPeripheral functions × Bool
  unfolding find_sub erase_sub
  remove_sub_peripheral d addr = elim (find_sub addr d.sub_peripherals) [
    | none ↦ (d, false)
    | some s ↦ (
      record d {
        sub_peripherals = erase_sub addr d.sub_peripherals;
        base = set_addr_augmenter functions d.base (bit_and d.base.addr_augmenter (0xFF - s.addr));
      },
      true,
    )
  ]

  -- Sub-peripherals in the order of their addresses.
  IsOrdered : List (Peripheral functions) → Type 0
  IsOrdered [] = Unit
  IsOrdered (s ∷ subs) = All (λ (r : Peripheral functions). s.addr ≤ r.addr) subs × IsOrdered subs

  insert_sub-above :
      (k : ℕ) (p : Peripheral functions) (subs : List (Peripheral functions))
      → k ≤ p.addr
      → All (λ (r : Peripheral functions). k ≤ r.addr) subs
      → All (λ (r : Peripheral functions). k ≤ r.addr) (insert_sub p subs)
  unfolding insert_sub
  insert_sub-above k p [] h hs = (h, tt)
  insert_sub-above k p (s ∷ subs) h hs =
      if_both (All (λ (r : Peripheral functions). k ≤ r.addr)) (ltb p.addr s.addr) (h, hs)
        (hs.0, insert_sub-above k p subs h hs.1)

  All_later :
      (k m : ℕ) (subs : List (Peripheral functions))
      → k ≤ m
      → All (λ (r : Peripheral functions). m ≤ r.addr) subs
      → All (λ (r : Peripheral functions). k ≤ r.addr) subs
  All_later k m [] h hs = tt
  All_later k m (s ∷ subs) h hs = (omega (arith, hs.0), All_later k m subs h hs.1)

  -- A sub-peripheral that is added keeps the order.
  insert_sub-IsOrdered :
      (p : Peripheral functions) (subs : List (Peripheral functions))
      → IsOrdered subs
      → IsOrdered (insert_sub p subs)
  unfolding insert_sub IsOrdered
  insert_sub-IsOrdered p [] h = (tt, tt)
  insert_sub-IsOrdered p (s ∷ subs) h =
      let order = insert_sub-IsOrdered p subs h.1 in
      elim (Bool-cases (ltb p.addr s.addr)) [
        | inl lower ↦
            let low : p.addr ≤ s.addr = ground (arith, lower) in
            rw lower ((low, All_later p.addr s.addr subs low h.0), h)
        | inr above ↦
            let low : s.addr ≤ p.addr = ground (arith, above) in
            rw above (insert_sub-above s.addr p subs low h.0, order)
      ]

  -- A sub-peripheral that is added with a new address and removed again leaves the others.
  erase_sub-insert_sub :
      (p : Peripheral functions) (subs : List (Peripheral functions))
      → find_sub p.addr subs ≡ none
      → erase_sub p.addr (insert_sub p subs) ≡ subs
  unfolding insert_sub erase_sub find_sub
  erase_sub-insert_sub p [] h = if_true _ (==_refl p.addr)
  erase_sub-insert_sub p (s ∷ subs) h = elim (Bool-cases (s.addr == p.addr)) [
    | inl same ↦ absurd (ground (arith, h, same))
    | inr other ↦
        let rest : find_sub p.addr subs ≡ none = ground (arith, h, other) in
        let ih = erase_sub-insert_sub p subs rest in
        elim (Bool-cases (ltb p.addr s.addr)) [
          | inl lower ↦ rw lower (if_true _ (==_refl p.addr))
          | inr above ↦ rw above (if_false (insert_sub p subs) other ∙ ap (λ rest. s ∷ rest) ih)
        ]
  ]
