-- ===== src/Security/Tunnel.antt =====
-- protocol.c: `process_arg_wrapped` passes on only what an authentic packet has brought.
use addressroutinggateway.Prelude.{
  ℕ, ◌≡◌, refl, sym, ap, ◌∙◌, Bool, true, false, Bool-cases, ◌⊎◌, inl, inr, Option, none, some, ℤ,
  pos, negsuc, if◌then◌else◌,
}
use addressroutinggateway.Packet.{PacketData}
use addressroutinggateway.World.{
  World, Outcome, done, null_dereference, deadlock, and_then, Env, Run, pure, unlock, lock,
  set_flag, ◌>>◌, ◌>>=◌, relock,
}
use addressroutinggateway.World.Keeps.{After, Keeps, Keeps-done, state_of}
use addressroutinggateway.Machine.Steps.{IsQuiet}
use addressroutinggateway.Machine.Quiet.{
  Quietly, Quietly-deref, Quietly-create_packet, Quietly-send_packet,
}
use addressroutinggateway.Protocol.Message.{ArgMsg}
use addressroutinggateway.Protocol.Receive.{process_arg_packet}
use addressroutinggateway.Protocol.Wrapped.{
  forward, unwrap_message, unwrap_connected, process_arg_wrapped,
}
use addressroutinggateway.Security.Authentic.{Authenticates, process_arg_packet-Authenticates}
use addressroutinggateway.Security.Silent.{IsInward, IsInward-process_arg_packet}

-- The mutex at r is given back, and the others are as they were.
abbrev Unlocks : {T : Type 0} → ℕ → World T → World T → Type 0
Unlocks r u v = v.locked ≡ set_flag r false u.locked

module _ (T : Type 0) (r : ℕ) where
  After-Unlocks :
      (A : Type 0) (u w : World T) (o : Outcome T A)
      → w.locked ≡ u.locked
      → After (Unlocks r w) o
      → After (Unlocks r u) o
  After-Unlocks A u w (done a v) q h = h ∙ ap (set_flag r false) q
  After-Unlocks A u w null_dereference q h = tt
  After-Unlocks A u w deadlock q h = tt

  and_then-Unlocks :
      (A B : Type 0) (u : World T) (o : Outcome T A) (f : A → Run T B)
      → After (IsQuiet u) o
      → ((a : A) → Keeps (Unlocks r) (f a))
      → After (Unlocks r u) (and_then o f)
  unfolding Keeps
  and_then-Unlocks A B u (done a w) f q k = After-Unlocks B u w (f a w) q.same_locked (k a w)
  and_then-Unlocks A B u null_dereference f q k = tt
  and_then-Unlocks A B u deadlock f q k = tt

  Unlocks-bind :
      (A B : Type 0) (m : Run T A) (f : A → Run T B)
      → Quietly m
      → ((a : A) → Keeps (Unlocks r) (f a))
      → Keeps (Unlocks r) (m >>= f)
  unfolding Keeps
  Unlocks-bind A B m f q k w = and_then-Unlocks A B w (m w) f (q w) k

  Unlocks-if :
      (A : Type 0) (b : Bool) (m n : Run T A)
      → Keeps (Unlocks r) m
      → Keeps (Unlocks r) n
      → Keeps (Unlocks r) (if b then m else n)
  Unlocks-if A true m n k l = k
  Unlocks-if A false m n k l = l

  Unlocks-unlock : (A : Type 0) (x : A) → Keeps {T = T} (Unlocks r) (unlock r >> pure x)
  unfolding Keeps unlock
  Unlocks-unlock A x w = refl

  ruleset unlock_rules = (Unlocks-bind, Unlocks-if, Unlocks-unlock)

  module _ (env : Env) where
    Unlocks-forward :
        (m : ArgMsg) (p : Option PacketData) → Keeps {T = T} (Unlocks r) (forward env r m p)
    Unlocks-forward m none = Unlocks-unlock ℤ _
    Unlocks-forward m (some p) = search (unlock_rules, Quietly-send_packet)

    Unlocks-unwrap_message :
        (got : ℤ × Option ArgMsg) → Keeps {T = T} (Unlocks r) (unwrap_message env r got)
    Unlocks-unwrap_message (ret, msg) =
        search (unlock_rules, Quietly-deref, Quietly-create_packet, Unlocks-forward) depth 10

module _ (T : Type 0) (env : Env) (l r : ℕ) (p : PacketData) where
  -- Nothing was sent, or the packet is the connected peer's.
  abbrev pub PassesOn : World T → World T → Type 0
  PassesOn w v =
      (v.sent ≡ w.sent)
      ⊎ (((w.gates r).connected ≡ true)
          × (a : ℕ) × (p.arg ≡ some a)
          × Authenticates env (w.gates r) p a)

  -- An error ends the function.
  unwrap_message-error :
      (m : ℕ) (msg : Option ArgMsg) (w v : World T) (x : ℤ)
      → unwrap_message env r (negsuc m, msg) w ≡ done x v
      → v.sent ≡ w.sent
  unfolding unlock
  unwrap_message-error m msg w v x e = ap (λ u. u.sent) (sym (ap (state_of w) e))

  unwrap_outcome :
      (o : Outcome T (ℤ × Option ArgMsg)) (w v : World T) (x : ℤ)
      → (w.gates r).connected ≡ true
      → process_arg_packet env l r p w ≡ o
      → and_then o (unwrap_message env r) ≡ done x v
      → PassesOn w v × (v.locked ≡ set_flag r false w.locked)
  unwrap_outcome null_dereference w v x up ran e = absurd cc
  unwrap_outcome deadlock w v x up ran e = absurd cc
  unwrap_outcome (done (ret, msg) u) w v x up ran e = (sent ret ran e, unlocked)
    where
      inward : IsInward w u
      inward =
          Keeps-done IsInward (process_arg_packet env l r p)
            (IsInward-process_arg_packet T env l r p) w u (ret, msg) ran

      unlocked : v.locked ≡ set_flag r false w.locked
      unlocked =
          Keeps-done (Unlocks r) (unwrap_message env r (ret, msg))
            (Unlocks-unwrap_message T r env (ret, msg)) u v x e
          ∙ ap (set_flag r false) inward.1

      sent :
          (n : ℤ)
          → process_arg_packet env l r p w ≡ done (n, msg) u
          → unwrap_message env r (n, msg) u ≡ done x v
          → PassesOn w v
      sent (pos n) ran e =
          let (a, here, authentic) = process_arg_packet-Authenticates T env l r p w u n msg ran in
          inr (up, a, here, authentic)
      sent (negsuc n) ran e = inl (unwrap_message-error n msg u v x e ∙ inward.0)

  unwrap_connected-PassesOn :
      (b : Bool) (w v : World T) (x : ℤ)
      → (w.gates r).connected ≡ b
      → unwrap_connected env l r p b w ≡ done x v
      → PassesOn w v × (v.locked ≡ set_flag r false w.locked)
  unfolding unlock
  unwrap_connected-PassesOn false w v x down e =
      let same = sym (ap (state_of w) e) in (inl (ap (λ u. u.sent) same), ap (λ u. u.locked) same)
  unwrap_connected-PassesOn true w v x up e =
      unwrap_outcome (process_arg_packet env l r p w) w v x up refl e

  -- Whenever `process_arg_wrapped` returns, the mutexes are as they were before, and it has sent nothing
  -- unless the peer is connected and the packet carries the HMAC or the signature of the peer.
  pub process_arg_wrapped-PassesOn :
      (w v : World T) (x : ℤ)
      → process_arg_wrapped env l r p w ≡ done x v
      → PassesOn w v × (v.locked ≡ w.locked)
  unfolding process_arg_wrapped lock
  process_arg_wrapped-PassesOn w v x e = elim (Bool-cases (w.locked r)) [
    | inl held ↦ absurd (locked_out (rw held at e))
    | inr free ↦
        let (passes, unlocked) =
          unwrap_connected-PassesOn (w.gates r).connected
            (record w { locked = set_flag r true w.locked }) v x refl (rw free at e) in
        (passes, unlocked ∙ relock r w.locked free)
  ]
    where
      locked_out : deadlock ≡ done x v → ⊥
      locked_out h = cc
