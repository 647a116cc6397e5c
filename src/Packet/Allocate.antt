-- ===== src/Packet/Allocate.antt =====
-- packet.c: `create_packet` where there is memory.
use addressroutinggateway.Prelude.{ℕ, zero, suc, ◌<◌, ◌≡◌, refl, some, arith}
use addressroutinggateway.Memory.{Bytes}
use addressroutinggateway.Packet.Parse.{parse_packet}
use addressroutinggateway.Packet.Buffers.{raw_packet, clear, create_packet}
use addressroutinggateway.World.{World, done, Env, malloc}

module _ (T : Type 0) (env : Env) (memory : ℕ → Bytes)
    (has_memory : (n : ℕ) → env.malloc n ≡ some (memory n)) where
  pub create_packet-done :
      (n : ℕ) (w : World T)
      → 0 < n
      → create_packet env n w
        ≡ done
            (some (parse_packet (raw_packet n 0 (clear n (memory (suc w.allocs))))).0)
            (record w { allocs = suc (suc w.allocs) })
  unfolding create_packet malloc
  create_packet-done zero w h = absurd (omega arith)
  create_packet-done (suc n) w h = rw (has_memory w.allocs, has_memory (suc w.allocs)) refl
