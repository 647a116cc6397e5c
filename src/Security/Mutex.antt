-- ===== src/Security/Mutex.antt =====
-- protocol.c: the mutex that `send_arg_wrapped` takes.
use addressroutinggateway.Prelude.{
  ℕ, zero, suc, ◌≡◌, refl, sym, ap, ◌∙◌, List, Bool, true, false, Bool-cases, Option, none, some,
  ◌⊎◌, inl, inr, ℤ,
}
use addressroutinggateway.Memory.{Bytes}
use addressroutinggateway.Packet.{PacketData}
use addressroutinggateway.Packet.Buffers.{create_with, create_data, create_packet, send_packet}
use addressroutinggateway.World.{
  World, Outcome, done, null_dereference, deadlock, and_then, pure, ◌>>◌, Env, Gate, modify,
  current_time, lock, unlock, set_flag, relock,
}
use addressroutinggateway.World.Keeps.{Keeps, Keeps-pure, Keeps-done, state_of}
use addressroutinggateway.Hopper.Address.{generate_ip_corrected}
use addressroutinggateway.Machine.Steps.{IsQuiet}
use addressroutinggateway.Machine.Quiet.{Quietly-send_packet}
use addressroutinggateway.Protocol.Message.{ArgMsg, arg_wrapped_msg}
use addressroutinggateway.Protocol.Create.{
  encrypt, place_signature, sign, finish_packet, build_packet, create_arg_packet,
}
use addressroutinggateway.Protocol.Wrapped.{
  inner_message, send_wrapped, wrap_connected, send_arg_wrapped,
}
use addressroutinggateway.Security.Silent.{
  IsInward, IsInward-IsPreorder, IsSilent, silent_do, IsSilent-malloc, IsSilent-update_proto,
}

module _ (T : Type 0) (env : Env) where
  IsSilent-current_time : IsSilent T (current_time env)
  unfolding current_time Keeps
  IsSilent-current_time w = (refl, refl)

  IsSilent-draw : IsSilent T (modify (λ w. record w { draws = suc w.draws }))
  unfolding Keeps
  IsSilent-draw w = (refl, refl)

  IsSilent-generate_ip : (g : Gate) (x : ℤ) → IsSilent T (generate_ip_corrected env g x)
  unfolding generate_ip_corrected
  IsSilent-generate_ip g x = search (silent_do, IsSilent-current_time)

  IsSilent-create_with : (n : ℕ) (s : Option Bytes) → IsSilent T (create_with env n s)
  IsSilent-create_with n none = Keeps-pure _ (IsInward-IsPreorder T) _
  IsSilent-create_with n (some s) = Keeps-pure _ (IsInward-IsPreorder T) _

  IsSilent-create_data : (n : ℕ) (s : Option Bytes) → IsSilent T (create_data env n s)
  IsSilent-create_data n none = Keeps-pure _ (IsInward-IsPreorder T) none
  IsSilent-create_data zero (some s) = Keeps-pure _ (IsInward-IsPreorder T) _
  IsSilent-create_data (suc n) (some s) = search (silent_do, IsSilent-malloc, IsSilent-create_with)

  IsSilent-create_packet : (n : ℕ) → IsSilent T (create_packet env n)
  unfolding create_packet
  IsSilent-create_packet n = search (silent_do, IsSilent-malloc, IsSilent-create_data)

  IsSilent-encrypt :
      (type : ℕ) (g : Gate) (b : Bytes) (a u : ℕ) (msg : Option ArgMsg)
      → IsSilent T (encrypt env type g b a u msg)
  IsSilent-encrypt type g b a u none = Keeps-pure _ (IsInward-IsPreorder T) _
  IsSilent-encrypt type g b a u (some msg) = search (silent_do, IsSilent-draw) depth 10 fits 3000

  IsSilent-place_signature :
      (p : PacketData) (a : ℕ) (sig : Option (List ℕ)) → IsSilent T (place_signature env p a sig)
  IsSilent-place_signature p a none = Keeps-pure _ (IsInward-IsPreorder T) _
  IsSilent-place_signature p a (some sig) = Keeps-pure _ (IsInward-IsPreorder T) _

  IsSilent-sign : (type : ℕ) (g : Gate) (p : PacketData) (a : ℕ) → IsSilent T (sign env type g p a)
  unfolding sign
  IsSilent-sign type g p a = search (silent_do, IsSilent-place_signature)

  IsSilent-finish_packet :
      (type : ℕ) (g : Gate) (p : PacketData) (o a : ℕ) (body : ℤ ⊎ Bytes)
      → IsSilent T (finish_packet env type g p o a body)
  IsSilent-finish_packet type g p o a (inl err) = Keeps-pure _ (IsInward-IsPreorder T) _
  IsSilent-finish_packet type g p o a (inr b) = search (silent_do, IsSilent-sign)

  IsSilent-build_packet :
      (l r type : ℕ) (msg : Option ArgMsg) (p : Option PacketData)
      → IsSilent T (build_packet env l r type msg p)
  IsSilent-build_packet l r type msg none = Keeps-pure _ (IsInward-IsPreorder T) _
  IsSilent-build_packet l r type msg (some p) =
      search
        (
          silent_do, IsSilent-generate_ip, IsSilent-update_proto, IsSilent-encrypt,
          IsSilent-finish_packet,
        )
        depth 20 fits 3000

  pub IsSilent-create_arg_packet :
      (l r type : ℕ) (msg : Option ArgMsg) → IsSilent T (create_arg_packet env l r type msg)
  unfolding create_arg_packet
  IsSilent-create_arg_packet l r type msg =
      search (silent_do, IsSilent-create_packet, IsSilent-build_packet)

  module _ (l r : ℕ) (p : PacketData) where
    -- The gateway is not connected, nothing is sent and the mutexes are as before; or it is connected
    -- and the mutexes are as before; or it is connected, nothing is sent and its mutex is still held.
    abbrev pub Wraps : World T → World T → Type 0
    Wraps w v =
        (((w.gates r).connected ≡ false) × (v.sent ≡ w.sent) × (v.locked ≡ w.locked))
        ⊎ (((w.gates r).connected ≡ true) × (v.locked ≡ w.locked))
        ⊎ (((w.gates r).connected ≡ true)
            × (v.sent ≡ w.sent)
            × (v.locked ≡ set_flag r true w.locked))

    -- The end of the function, on the outcome of sending the packet.
    sent_outcome :
        (o : Outcome T ℤ) (u v : World T) (x : ℤ) (q : PacketData)
        → send_packet env q u ≡ o
        → and_then o (λ ret. unlock r >> pure ret) ≡ done x v
        → v.locked ≡ set_flag r false u.locked
    unfolding unlock
    sent_outcome null_dereference u v x q ran e = absurd cc
    sent_outcome deadlock u v x q ran e = absurd cc
    sent_outcome (done ret s) u v x q ran e =
        let quiet =
          Keeps-done IsQuiet (send_packet env q) (Quietly-send_packet T env q) u s ret ran in
        sym (ap (λ t. t.locked) (ap (state_of u) e)) ∙ ap (set_flag r false) quiet.same_locked

    created_outcome :
        (o : Outcome T (ℤ × Option PacketData)) (u v : World T) (x : ℤ)
        → create_arg_packet env l r arg_wrapped_msg (some (inner_message p)) u ≡ o
        → and_then o (send_wrapped env r) ≡ done x v
        → (v.locked ≡ set_flag r false u.locked) ⊎ ((v.sent ≡ u.sent) × (v.locked ≡ u.locked))
    created_outcome null_dereference u v x ran e = absurd cc
    created_outcome deadlock u v x ran e = absurd cc
    created_outcome (done (ret, none) s) u v x ran e =
        let inward =
          Keeps-done IsInward (create_arg_packet env l r arg_wrapped_msg (some (inner_message p)))
            (IsSilent-create_arg_packet l r arg_wrapped_msg (some (inner_message p))) u s
            (ret, none) ran in
        let same = sym (ap (state_of u) e) in
        inr (ap (λ t. t.sent) same ∙ inward.0, ap (λ t. t.locked) same ∙ inward.1)
    created_outcome (done (ret, some q) s) u v x ran e =
        let inward =
          Keeps-done IsInward (create_arg_packet env l r arg_wrapped_msg (some (inner_message p)))
            (IsSilent-create_arg_packet l r arg_wrapped_msg (some (inner_message p))) u s
            (ret, some q) ran in
        inl (sent_outcome (send_packet env q s) s v x q refl e ∙ ap (set_flag r false) inward.1)

    wrap_connected-Wraps :
        (b : Bool) (w v : World T) (x : ℤ)
        → w.locked r ≡ false
        → (w.gates r).connected ≡ b
        → wrap_connected env l r p b (record w { locked = set_flag r true w.locked }) ≡ done x v
        → Wraps w v
    unfolding unlock
    wrap_connected-Wraps false w v x free down e =
        let same = sym (ap (state_of w) e) in
        inl (down, ap (λ t. t.sent) same, ap (λ t. t.locked) same ∙ relock r w.locked free)
    wrap_connected-Wraps true w v x free up e =
        let u = record w { locked = set_flag r true w.locked } in
        elim (created_outcome (create_arg_packet env l r arg_wrapped_msg (some (inner_message p)) u)
          u v x refl e) [
            | inl back ↦ inr (inl (up, back ∙ relock r w.locked free))
            | inr (sent, held) ↦ inr (inr (up, sent, held))
          ]

    -- Whenever `send_arg_wrapped` returns: the gateway is not connected, nothing was sent and the mutexes
    -- are as before; or it is connected and the mutexes are as before; or it is connected, nothing was
    -- sent and its mutex is left held (when the packet could not be created).
    pub send_arg_wrapped-Wraps :
        (w v : World T) (x : ℤ) → send_arg_wrapped env l r p w ≡ done x v → Wraps w v
    unfolding send_arg_wrapped lock
    send_arg_wrapped-Wraps w v x e = elim (Bool-cases (w.locked r)) [
      | inl held ↦ absurd (locked_out (rw held at e))
      | inr free ↦ wrap_connected-Wraps (w.gates r).connected w v x free refl (rw free at e)
    ]
      where
        locked_out : deadlock ≡ done x v → ⊥
        locked_out h = cc
