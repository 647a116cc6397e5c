-- ===== src/Machine/Director.antt =====
-- director.c: the handlers make only steps of the program.
use addressroutinggateway.Prelude.{◌≡◌, ℕ, Bool, true, false, Option, none, some}
use addressroutinggateway.Packet.{PacketData}
use addressroutinggateway.World.{World, done, Env, deref, gets}
use addressroutinggateway.World.Keeps.{Keeps-done}
use addressroutinggateway.Hopper.Admin.{admin_round}
use addressroutinggateway.Nat.{HashTable, Bucket, clean_nat_table}
use addressroutinggateway.Director.{
  Drop, admin_inbound, unwrap_inbound, check_source, check_dest, wrapped_inbound, arg_inbound,
  inbound_from, direct_inbound, outbound_to, direct_outbound,
}
use addressroutinggateway.Machine.Calls.{Runs, do_rules, Runs-pure, Runs-deref, Runs-gets}
use addressroutinggateway.Machine.Rounds.{Runs-admin_round}
use addressroutinggateway.Machine.Dispatch.{
  Runs-note_bad_ip, Runs-note_good_ip, Runs-is_valid_ip, Runs-is_valid_local_ip,
  Runs-process_admin_msg, Runs-do_arg_wrap, Runs-do_arg_unwrap,
}
use addressroutinggateway.Machine.Program.{Move, Moves, Makes, Makes-Runs, Makes-pure, Makes-bind}
use addressroutinggateway.Machine.Table.{
  Makes-do_nat_inbound_rewrite, Makes-do_nat_outbound_rewrite,
}

module _ (h : HashTable Bucket) (env : Env) where
  open h use {Table}

  Runs-admin_inbound : (p : PacketData) (r : ℕ) → Runs (admin_inbound h env p r)
  Runs-admin_inbound p r = search (do_rules, Runs-process_admin_msg)

  Runs-unwrap_inbound : (p : PacketData) (r : ℕ) (b : Bool) → Runs (unwrap_inbound h env p r b)
  Runs-unwrap_inbound p r true = search (do_rules, Runs-note_good_ip, Runs-do_arg_unwrap)
  Runs-unwrap_inbound p r false = search (do_rules, Runs-note_bad_ip)

  Runs-check_source : (p : PacketData) (o r : ℕ) (b : Bool) → Runs (check_source h env p o r b)
  Runs-check_source p o r true = search (do_rules, Runs-is_valid_ip, Runs-unwrap_inbound)
  Runs-check_source p o r false = search (do_rules, Runs-note_bad_ip)

  Runs-check_dest : (p : PacketData) (o r : ℕ) (b : Bool) → Runs (check_dest h env p o r b)
  Runs-check_dest p o r true = search (do_rules, Runs-is_valid_local_ip, Runs-check_source)
  Runs-check_dest p o r false = Runs-pure _ _ _

  Runs-wrapped_inbound : (p : PacketData) (o r : ℕ) → Runs (wrapped_inbound h env p o r)
  Runs-wrapped_inbound p o r = search (do_rules, Runs-check_dest)

  Runs-arg_inbound : (p : PacketData) (o r : ℕ) (a : Option ℕ) → Runs (arg_inbound h env p o r a)
  Runs-arg_inbound p o r none = Runs-pure _ _ _
  Runs-arg_inbound p o r (some a) = search (do_rules, Runs-admin_inbound, Runs-wrapped_inbound)

  Makes-inbound_from :
      (p : PacketData) (o : ℕ) (gate : Option ℕ) → Makes h (inbound_from h env p o gate)
  Makes-inbound_from p o (some r) = Makes-Runs h _ _ (Runs-arg_inbound p o r p.arg)
  Makes-inbound_from p o none = search (Makes-bind, Makes-pure, Makes-do_nat_inbound_rewrite)

  Makes-deref : (A : Type 0) (x : Option A) → Makes h (deref x)
  Makes-deref A x = Makes-Runs h _ _ (Runs-deref Table A x)

  Makes-gets : (A : Type 0) (f : World Table → A) → Makes h (gets f)
  Makes-gets A f = Makes-Runs h _ _ (Runs-gets Table A f)

  pub Makes-direct_inbound : (p : PacketData) → Makes h (direct_inbound h env p)
  unfolding direct_inbound
  Makes-direct_inbound p = search (Makes-bind, Makes-deref, Makes-gets, Makes-inbound_from)

  Runs-wrap_result : (p : PacketData) (r : ℕ) → Runs (outbound_to h env p (some r))
  Runs-wrap_result p r = search (do_rules, Runs-do_arg_wrap)

  Makes-outbound_to : (p : PacketData) (gate : Option ℕ) → Makes h (outbound_to h env p gate)
  Makes-outbound_to p (some r) = Makes-Runs h _ _ (Runs-wrap_result p r)
  Makes-outbound_to p none = search (Makes-bind, Makes-pure, Makes-do_nat_outbound_rewrite)

  pub Makes-direct_outbound : (p : PacketData) → Makes h (direct_outbound h env p)
  unfolding direct_outbound
  Makes-direct_outbound p = search (Makes-bind, Makes-deref, Makes-gets, Makes-outbound_to)

  -- What the threads of the program call, as one step of the whole: a packet on the external device,
  -- one on the internal device, a round of the admin thread, or of the thread that cleans the table.
  pub data Call (w : World Table) : World Table → Type 0 where
    inbound :
        (p : PacketData) (d : Option Drop) {v : World Table}
        → direct_inbound h env p w ≡ done d v
        → Call w v
    outbound :
        (p : PacketData) (d : Option Drop) {v : World Table}
        → direct_outbound h env p w ≡ done d v
        → Call w v
    admin : (n : ℕ) {v : World Table} → admin_round env n w ≡ done tt v → Call w v
    cleaning : {v : World Table} → clean_nat_table h env w ≡ done tt v → Call w v

  -- Any sequence of such calls, one after the other.
  pub data Calls (w : World Table) : World Table → Type 0 where
    started : Calls w w
    called : {u v : World Table} → Calls w u → Call u v → Calls w v

  -- Each call of the program's threads that returns is a sequence of the steps of the state machine.
  pub Moves-Call : {w v : World Table} → Call w v → Moves h w v
  Moves-Call {w = w} {v = v} (inbound p d e) =
      Keeps-done (Moves h) (direct_inbound h env p) (Makes-direct_inbound p) w v d e
  Moves-Call {w = w} {v = v} (outbound p d e) =
      Keeps-done (Moves h) (direct_outbound h env p) (Makes-direct_outbound p) w v d e
  Moves-Call {w = w} {v = v} (admin n e) =
      Keeps-done (Moves h) (admin_round env n)
        (Makes-Runs h _ (admin_round env n) (Runs-admin_round Table env n)) w v tt e
  Moves-Call (cleaning e) = Moves.move Moves.stay (Move.clean env e)
