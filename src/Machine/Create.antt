-- ===== src/Machine/Create.antt =====
-- protocol.c: creating, sending and taking packets makes only steps of the gateway program.
use addressroutinggateway.Prelude.{
  ◌≡◌, ℕ, ◌+◌, ◌%◌, ◌^◌, List, refl, Option, none, some, ◌⊎◌, inl, inr, ℤ,
}
use addressroutinggateway.Memory.{Bytes}
use addressroutinggateway.Packet.{PacketData}
use addressroutinggateway.World.{Env, Gate, ProtoData, update_proto}
use addressroutinggateway.Protocol.Message.{ArgMsg}
use addressroutinggateway.Protocol.Create.{
  encrypt, place_signature, sign, finish_packet, build_packet, create_arg_packet, send_created,
  send_arg_packet,
}
use addressroutinggateway.Machine.Steps.{GateStep}
use addressroutinggateway.Machine.Calls.{
  Runs, Runs-update_gate, do_rules, call_rules, Runs-pure, Runs-draw,
}

module _ (T : Type 0) where
  -- A change of the protocol's notes.
  pub Runs-update_proto :
      (a : ℕ) (f : ProtoData → ProtoData)
      → ((s : ProtoData) → (f s).conn_data_available ≡ s.conn_data_available)
      → ((s : ProtoData) → (f s).time_base_available ≡ s.time_base_available)
      → Runs {T = T} (update_proto a f)
  unfolding update_proto
  Runs-update_proto a f same_data same_base =
      Runs-update_gate T a (λ g. record g { proto = f g.proto })
        λ g. GateStep.note (record {
          same_connected = refl;
          same_conn_data = same_data g.proto;
          same_time_base = same_base g.proto;
          same_update = refl;
          same_base_ip = refl;
          same_mask = refl;
          same_hop_key = refl;
          same_sym_key = refl;
        })

module _ (T : Type 0) (env : Env) where
  Runs-encrypt :
      (type : ℕ) (g : Gate) (b : Bytes) (a u : ℕ) (msg : Option ArgMsg)
      → Runs {T = T} (encrypt env type g b a u msg)
  Runs-encrypt type g b a u none = Runs-pure _ _ _
  Runs-encrypt type g b a u (some msg) = search (do_rules, Runs-draw)

  Runs-place_signature :
      (p : PacketData) (a : ℕ) (sig : Option (List ℕ)) → Runs {T = T} (place_signature env p a sig)
  Runs-place_signature p a none = Runs-pure _ _ _
  Runs-place_signature p a (some sig) = Runs-pure _ _ _

  Runs-sign : (type : ℕ) (g : Gate) (p : PacketData) (a : ℕ) → Runs {T = T} (sign env type g p a)
  unfolding sign
  Runs-sign type g p a = search (do_rules, Runs-place_signature)

  Runs-finish_packet :
      (type : ℕ) (g : Gate) (p : PacketData) (o a : ℕ) (body : ℤ ⊎ Bytes)
      → Runs {T = T} (finish_packet env type g p o a body)
  Runs-finish_packet type g p o a (inl err) = Runs-pure _ _ _
  Runs-finish_packet type g p o a (inr b) = search (do_rules, Runs-sign)

  Runs-count_out :
      (r : ℕ)
      → Runs {T = T} (update_proto r (λ s. record s { out_seq_num = (s.out_seq_num + 1) % 2 ^ 32 }))
  Runs-count_out r = Runs-update_proto T r _ (λ s. refl) (λ s. refl)

  Runs-build_packet :
      (l r type : ℕ) (msg : Option ArgMsg) (p : Option PacketData)
      → Runs {T = T} (build_packet env l r type msg p)
  Runs-build_packet l r type msg none = Runs-pure _ _ _
  Runs-build_packet l r type msg (some p) =
      search (call_rules, Runs-count_out, Runs-encrypt, Runs-finish_packet) depth 20 fits 3000

  pub Runs-create_arg_packet :
      (l r type : ℕ) (msg : Option ArgMsg) → Runs {T = T} (create_arg_packet env l r type msg)
  unfolding create_arg_packet
  Runs-create_arg_packet l r type msg = search (call_rules, Runs-build_packet) depth 20 fits 3000

  Runs-send_created : (made : ℤ × Option PacketData) → Runs {T = T} (send_created env made)
  Runs-send_created (ret, none) = Runs-pure _ _ _
  Runs-send_created (ret, some p) = search call_rules

  pub Runs-send_arg_packet :
      (l r type : ℕ) (msg : Option ArgMsg) → Runs {T = T} (send_arg_packet env l r type msg)
  unfolding send_arg_packet
  Runs-send_arg_packet l r type msg =
      search (call_rules, Runs-create_arg_packet, Runs-send_created) depth 20 fits 3000
