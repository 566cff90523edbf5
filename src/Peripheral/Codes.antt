-- ===== src/Peripheral/Codes.antt =====
-- src/clientLib/DreamcastPeripheral.cpp: the map from codes to functions.
use dream_pico_port.Prelude.{
  ℕ, ◌≡◌, refl, ap, ap₂, subst, true, false, ◌||◌, ◌==◌, List, [], ◌∷◌, map, Option, some, none,
  Bool-cases, Option-cases, inl, inr, some_inj, arith,
}
use dream_pico_port.Packet.{MaplePacket}
use dream_pico_port.Storage.{Handled}
use dream_pico_port.Peripheral.{
  Functions, Peripheral, is_info_request, dispatch, function_answer, function_command, info_answer,
  switch, addressed, handle_packet, reset_peripheral, set_function_definitions,
}

module _ (functions : Functions) where
  open functions use {Function, function_code, handle, reset, handle_code, reset_code}

  abbrev codes : List Function → List ℕ
  codes fs = map function_code fs

  dispatch-codes :
      (code : ℕ) (fs : List Function) (p out : MaplePacket) (r : List Function × Handled)
      → dispatch functions code fs p out ≡ some r
      → codes r.0 ≡ codes fs
  unfolding dispatch
  dispatch-codes code [] p out r e = absurd (cc e)
  dispatch-codes code (f ∷ fs) p out r e = elim (Bool-cases (function_code f == code)) [
    | inl this ↦
        subst (λ (x : List Function × Handled). codes x.0 ≡ codes (f ∷ fs))
          (some_inj (rw this at e)) (ap (λ c. c ∷ codes fs) (handle_code f p out))
    | inr other ↦ elim (Option-cases (dispatch functions code fs p out)) [
      | inl absent ↦ let never : none ≡ some r = rw (other, absent) at e in absurd (cc never)
      | inr (s, found) ↦
          subst (λ (x : List Function × Handled). codes x.0 ≡ codes (f ∷ fs))
            (some_inj (rw (other, found) at e))
            (ap (λ cs. function_code f ∷ cs) (dispatch-codes code fs p out s found))
    ]
  ]

  reset_codes : (fs : List Function) → codes (map reset fs) ≡ codes fs
  reset_codes [] = refl
  reset_codes (f ∷ fs) = ap₂ ◌∷◌ (reset_code f) (reset_codes fs)

  abbrev KeepsCodes : Peripheral functions → Option (Peripheral functions × Handled) → Type 0
  KeepsCodes d r =
      (x : Peripheral functions × Handled) → r ≡ some x → codes x.0.devices ≡ codes d.devices

  function_command-KeepsCodes :
      (d : Peripheral functions) (p out : MaplePacket) (payload : List ℕ)
      → KeepsCodes d (function_command functions d p out payload)
  unfolding function_command function_answer
  function_command-KeepsCodes d p out [] x e = absurd (cc e)
  function_command-KeepsCodes d p out (code ∷ words) x e =
      elim (Option-cases (dispatch functions code d.devices p out)) [
        | inl absent ↦
            subst (λ (x : Peripheral functions × Handled). codes x.0.devices ≡ codes d.devices)
              (some_inj (rw absent at e)) refl
        | inr (s, found) ↦
            subst (λ (x : Peripheral functions × Handled). codes x.0.devices ≡ codes d.devices)
              (some_inj (rw found at e)) (dispatch-codes code d.devices p out s found)
      ]

  switch-KeepsCodes :
      (d : Peripheral functions) (p out : MaplePacket) → KeepsCodes d (switch functions d p out)
  unfolding switch info_answer set_function_definitions reset_peripheral
  switch-KeepsCodes d p out x e =
      ground (arith, reset_codes d.devices, function_command-KeepsCodes d p out p.payload x)

  addressed-KeepsCodes :
      (d : Peripheral functions) (p : MaplePacket) (r : Option (Peripheral functions × Handled))
      → KeepsCodes d r
      → KeepsCodes d (addressed functions p r)
  unfolding addressed
  addressed-KeepsCodes d p none k x e = absurd (cc e)
  addressed-KeepsCodes d p (some (d', h)) k x e =
      subst (λ (x : Peripheral functions × Handled). codes x.0.devices ≡ codes d.devices)
        (some_inj e) (k (d', h) refl)

  -- No packet adds a function to a peripheral, removes one, or moves one to another code.
  handle_packet-codes :
      (d d' : Peripheral functions) (p out : MaplePacket) (h : Handled)
      → handle_packet functions d p out ≡ some (d', h)
      → codes d'.devices ≡ codes d.devices
  unfolding handle_packet
  handle_packet-codes d d' p out h e =
      elim (Bool-cases (d.connected || is_info_request p.frame.command)) [
        | inl on ↦
            let c : Peripheral functions = record d { connected = true } in
            addressed-KeepsCodes c p (switch functions c p out) (switch-KeepsCodes c p out) (d', h)
              (rw on at e)
        | inr off ↦
            let c : Peripheral functions = record d { connected = false } in
            addressed-KeepsCodes c p (some (c, record { out = out; handled = false }))
              (λ x s.
                subst (λ (x : Peripheral functions × Handled). codes x.0.devices ≡ codes d.devices)
                  (some_inj s) refl)
              (d', h) (rw off at e)
      ]
