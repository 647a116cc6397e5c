-- ===== src/Machine/Invariant.antt =====
-- What holds of the gateways and of the NAT table in every state that the program reaches.
use addressroutinggateway.Prelude.{
  ℕ, suc, ◌≡◌, ◌≢◌, ◌<◌, refl, sym, ap, ◌∙◌, subst, List, [], ◌∷◌, true, false, Bool-cases, inl,
  inr, All, ◌==◌, if◌then◌else◌, arith,
}
use addressroutinggateway.World.{World, Env, Gate, set_gate}
use addressroutinggateway.World.Keeps.{state_of}
use addressroutinggateway.Hopper.Create.{insert_behind, new_gate}
use addressroutinggateway.Protocol.Connect.{accept_conn_data}
use addressroutinggateway.Protocol.Ping.{accept_response}
use addressroutinggateway.Protocol.Flow.{disconnected}
use addressroutinggateway.Nat.{HashTable, Bucket}
use addressroutinggateway.Nat.Distinct.{IsDistinct, IsDistinct-append_new, IsDistinct-replace}
use addressroutinggateway.Nat.Expiry.{clean_nat_table_lem, clean_items-IsDistinct}
use addressroutinggateway.Machine.Steps.{
  IsNote, GateStep, note, take_conn_data, take_response, disconnect, IsQuiet, Step, quiet, locks,
  change, give_up, join,
}
use addressroutinggateway.Machine.Program.{
  Move, gateways, add_bucket, store_bucket, clean, Moves, stay, move,
}
use addressroutinggateway.Machine.Director.{Calls, started, called, Moves-Call}

-- A gateway is connected only when its keys and its time base have come.
abbrev pub IsReady : Gate → Type 0
IsReady g =
    g.connected ≡ true → (g.proto.conn_data_available ≡ true) × (g.proto.time_base_available ≡ true)

GateStep-IsReady : {g g' : Gate} → GateStep g g' → IsReady g → IsReady g'
unfolding accept_conn_data accept_response disconnected
GateStep-IsReady (note n) ready c =
    let (data_in, base_in) = ready (sym n.same_connected ∙ c) in
    (n.same_conn_data ∙ data_in, n.same_time_base ∙ base_in)
GateStep-IsReady {g = g} (take_conn_data b now) ready c =
    elim (Bool-cases g.proto.time_base_available) [
      | inl base_in ↦ (refl, base_in)
      | inr missing ↦ (refl, (ready (rw missing at c)).1)
    ]
GateStep-IsReady {g = g} (take_response base latency) ready c =
    elim (Bool-cases g.proto.conn_data_available) [
      | inl data_in ↦ (data_in, refl)
      | inr missing ↦ ((ready (rw missing at c)).0, refl)
    ]
GateStep-IsReady disconnect ready c = absurd (ground arith)

-- No address stands twice.
abbrev pub IsOnce : List ℕ → Type 0
IsOnce [] = Unit {0}
IsOnce (a ∷ rest) = All (λ b. b ≢ a) rest × IsOnce rest

insert_behind-All :
    (P : ℕ → Type 0) (l new : ℕ) (xs : List ℕ) → P new → All P xs → All P (insert_behind l new xs)
unfolding insert_behind
insert_behind-All P l new [] p h = h
insert_behind-All P l new (b ∷ rest) p h = elim (Bool-cases (b == l)) [
  | inl at ↦ rw at (h.0, (p, h.1))
  | inr off ↦ rw off (h.0, insert_behind-All P l new rest p h.1)
]

pub All-ne : (a : ℕ) (xs : List ℕ) → All (λ b. b < a) xs → All (λ b. b ≢ a) xs
All-ne a [] h = tt
All-ne a (x ∷ xs) h = ((λ e. omega arith), All-ne a xs h.1)

pub All-grow : (n : ℕ) (xs : List ℕ) → All (λ b. b < n) xs → All (λ b. b < suc n) xs
All-grow n [] h = tt
All-grow n (x ∷ xs) h = (omega arith, All-grow n xs h.1)

insert_behind-IsOnce :
    (l new : ℕ) (xs : List ℕ) → All (λ b. b < new) xs → IsOnce xs → IsOnce (insert_behind l new xs)
unfolding insert_behind
insert_behind-IsOnce l new [] below once = tt
insert_behind-IsOnce l new (b ∷ rest) below once = elim (Bool-cases (b == l)) [
  | inl at ↦ rw at (((λ (e : new ≡ b). omega arith), once.0), (All-ne new rest below.1, once.1))
  | inr off ↦ rw off (
    insert_behind-All (λ c. c ≢ b) l new rest (λ (e : new ≡ b). omega arith) once.0,
    insert_behind-IsOnce l new rest below.1 once.1,
  )
]

new-IsReady :
    (g : Gate)
    → IsNote new_gate (record g { base_ip = new_gate.base_ip; mask = new_gate.mask })
    → IsReady g
new-IsReady g n c = absurd (true_ne_false (sym c ∙ n.same_connected))
  where
    true_ne_false : true ≡ false → ⊥
    true_ne_false e = cc

module _ {T : Type 0} where
  -- The gateways are ready when connected, and the list has each of them once.
  pub record AreSound (w : World T) : Type 0 where
    pub ready : (a : ℕ) → IsReady (w.gates a)
    pub known : All (λ a. a < w.fresh) w.order
    pub once : IsOnce w.order

  pub set_gate-IsReady :
      (a : ℕ) (g : Gate) (w : World T)
      → IsReady g
      → ((b : ℕ) → IsReady (w.gates b))
      → (b : ℕ) → IsReady (if b == a then g else w.gates b)
  set_gate-IsReady a g w new ready b = elim (Bool-cases (b == a)) [
    | inl at ↦ rw at new
    | inr off ↦ rw off (ready b)
  ]

  AreSound-quiet : {u v : World T} → IsQuiet u v → AreSound u → AreSound v
  AreSound-quiet q s = record {
    ready = λ a. subst (λ G. IsReady (G a)) (sym q.same_gates) (s.ready a);
    known = rw (q.same_order, q.same_fresh) s.known;
    once = rw q.same_order s.once;
  }

  AreSound-Step : {u v : World T} → Step u v → AreSound u → AreSound v
  unfolding set_gate
  AreSound-Step (quiet q) s = AreSound-quiet q s
  AreSound-Step (locks f) s = record { ready = s.ready; known = s.known; once = s.once }
  AreSound-Step {u = u} (change a {g' = g'} step) s = record {
    ready = set_gate-IsReady a g' u (GateStep-IsReady step (s.ready a)) s.ready;
    known = s.known;
    once = s.once;
  }
  AreSound-Step {u = u} give_up s = record {
    ready = set_gate-IsReady u.fresh new_gate u (λ c. absurd cc) s.ready;
    known = All-grow u.fresh u.order s.known;
    once = s.once;
  }
  AreSound-Step {u = u} (join l g n) s = record {
    ready = set_gate-IsReady u.fresh g u (new-IsReady g n) s.ready;
    known =
        insert_behind-All (λ a. a < suc u.fresh) l u.fresh u.order (omega arith)
          (All-grow u.fresh u.order s.known);
    once = insert_behind-IsOnce l u.fresh u.order s.known s.once;
  }

Step-table : {T : Type 0} {u v : World T} → Step u v → v.nat_table ≡ u.nat_table
unfolding set_gate
Step-table (quiet q) = q.same_table
Step-table (locks f) = refl
Step-table (change a step) = refl
Step-table give_up = refl
Step-table (join l g n) = refl

module _ (h : HashTable Bucket) where
  open h use {Table, items, hash_find, hash_add, store, find_items, items_add, items_store}

  -- The gateways are sound, and no key stands twice in the table.
  pub record IsWellFormed (w : World Table) : Type 0 where
    pub sound : AreSound w
    pub distinct : IsDistinct (items w.nat_table)

  with_table :
      {w v : World Table}
      → w.gates ≡ v.gates
      → w.fresh ≡ v.fresh
      → w.order ≡ v.order
      → AreSound w
      → AreSound v
  with_table gates fresh order s = record {
    ready = λ a. subst (λ G. IsReady (G a)) gates (s.ready a);
    known = rw (sym order, sym fresh) s.known;
    once = rw (sym order) s.once;
  }

  Move-IsWellFormed : {u v : World Table} → Move h u v → IsWellFormed u → IsWellFormed v
  Move-IsWellFormed (gateways step) f = record {
    sound = AreSound-Step step f.sound;
    distinct = rw (Step-table step) f.distinct;
  }
  Move-IsWellFormed {u = u} (add_bucket k b missing) f = record {
    sound = with_table refl refl refl f.sound;
    distinct = rw (items_add k b u.nat_table (sym (find_items k u.nat_table) ∙ missing)) (
        IsDistinct-append_new k b (items u.nat_table) (sym (find_items k u.nat_table) ∙ missing)
          f.distinct);
  }
  Move-IsWellFormed {u = u} (store_bucket k b) f = record {
    sound = with_table refl refl refl f.sound;
    distinct =
        rw (items_store k b u.nat_table) (IsDistinct-replace k b (items u.nat_table) f.distinct);
  }
  Move-IsWellFormed {u = u} {v = v} (clean env ran) f =
      let (t, e, left, recent) = clean_nat_table_lem h env u f.distinct in
      let v_is : record u { clock_reads = suc u.clock_reads; nat_table = t } ≡ v =
        ap (state_of u) (sym e ∙ ran) in
      subst IsWellFormed v_is (record {
        sound = with_table refl refl refl f.sound;
        distinct =
            rw left
              (clean_items-IsDistinct (env.clock u.clock_reads) (items u.nat_table) f.distinct);
      })

  pub Moves-IsWellFormed : {u v : World Table} → Moves h u v → IsWellFormed u → IsWellFormed v
  Moves-IsWellFormed stay f = f
  Moves-IsWellFormed (move r step) f = Move-IsWellFormed step (Moves-IsWellFormed r f)

  -- Through any sequence of calls that return (packets from outside and from inside, rounds of the
  -- admin thread, cleanings of the NAT table) these stay true: a gateway is connected only if its
  -- connection data and its time base have come; no gateway stands twice in the list; all that stand
  -- in it have been made; no key stands twice in the table.
  pub Calls-IsWellFormed :
      (env : Env) (w v : World Table) → Calls h env w v → IsWellFormed w → IsWellFormed v
  Calls-IsWellFormed env w v started f = f
  Calls-IsWellFormed env w v (called {u = u} r c) f =
      Moves-IsWellFormed (Moves-Call h env c) (Calls-IsWellFormed env w u r f)
