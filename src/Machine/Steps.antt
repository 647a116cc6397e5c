-- ===== src/Machine/Steps.antt =====
-- The changes that the functions of hopper.c and protocol.c make to the gateways, as a step relation.
use addressroutinggateway.Prelude.{ℤ, ℕ, suc, ◌≡◌, Bool}
use addressroutinggateway.Memory.{Bytes}
use addressroutinggateway.Utility.Time.{Timespec}
use addressroutinggateway.World.{World, Gate, set_gate}
use addressroutinggateway.World.Keeps.{IsPreorder}
use addressroutinggateway.Hopper.Create.{new_gate, insert_behind}
use addressroutinggateway.Protocol.Connect.{accept_conn_data}
use addressroutinggateway.Protocol.Ping.{accept_response}
use addressroutinggateway.Protocol.Flow.{disconnected}

-- Requests, counters, sequence numbers and times are the notes of the protocol; a change to them
-- leaves the rest of the structure.
pub record IsNote (g g' : Gate) : Type 0 where
  pub same_connected : g'.connected ≡ g.connected
  pub same_conn_data : g'.proto.conn_data_available ≡ g.proto.conn_data_available
  pub same_time_base : g'.proto.time_base_available ≡ g.proto.time_base_available
  pub same_update : g'.last_data_update ≡ g.last_data_update
  pub same_base_ip : g'.base_ip ≡ g.base_ip
  pub same_mask : g'.mask ≡ g.mask
  pub same_hop_key : g'.hop_key ≡ g.hop_key
  pub same_sym_key : g'.sym_key ≡ g.sym_key

-- One change to the structure of a gateway.
pub data GateStep (g : Gate) : Gate → Type 0 where
  note : {g' : Gate} → IsNote g g' → GateStep g g'
  take_conn_data : (b : Bytes) (now : Timespec) → GateStep g (accept_conn_data b now g)
  take_response : (base : Timespec) (latency : ℤ) → GateStep g (accept_response base latency g)
  disconnect : GateStep g (disconnected g)

module _ {T : Type 0} where
  -- Only the counters of the environment and what was sent may differ.
  pub record IsQuiet (u v : World T) : Type 0 where
    pub same_gates : v.gates ≡ u.gates
    pub same_locked : v.locked ≡ u.locked
    pub same_order : v.order ≡ u.order
    pub same_fresh : v.fresh ≡ u.fresh
    pub same_table : v.nat_table ≡ u.nat_table

  -- One step of the functions of hopper.c and protocol.c. A new structure is put in the list
  -- behind the one at l, or given up; a new one is not connected.
  pub data Step (u : World T) : World T → Type 0 where
    quiet : {v : World T} → IsQuiet u v → Step u v
    locks : (f : ℕ → Bool) → Step u (record u { locked = f })
    change : (a : ℕ) {g' : Gate} → GateStep (u.gates a) g' → Step u (set_gate a g' u)
    give_up : Step u (record (set_gate u.fresh new_gate u) { fresh = suc u.fresh })
    join :
        (l : ℕ) (g : Gate)
        → IsNote new_gate (record g { base_ip = new_gate.base_ip; mask = new_gate.mask })
        → Step u (record (set_gate u.fresh g u) {
          fresh = suc u.fresh;
          order = insert_behind l u.fresh u.order;
        })

  pub data Reach (u : World T) : World T → Type 0 where
    here : Reach u u
    next : {v w : World T} → Reach u v → Step v w → Reach u w

  pub Reach-trans : {u v w : World T} → Reach u v → Reach v w → Reach u w
  Reach-trans r here = r
  Reach-trans r (next s t) = next (Reach-trans r s) t

  pub one-Step : {u v : World T} → Step u v → Reach u v
  one-Step s = next here s

  pub Reach-IsPreorder : IsPreorder Reach
  Reach-IsPreorder = record { reflexive = λ w. here; transitive = λ u v w. Reach-trans }
