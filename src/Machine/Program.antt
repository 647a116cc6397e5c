-- ===== src/Machine/Program.antt =====
-- director.c and nat.c: the whole program as a state machine over the gateways and the NAT table.
use addressroutinggateway.Prelude.{ℕ, ◌≡◌, Bool, none, if◌then◌else◌}
use addressroutinggateway.World.{
  World, Outcome, done, null_dereference, deadlock, Run, pure, ◌>>=◌, ◌>>◌, Env,
}
use addressroutinggateway.World.Keeps.{
  IsPreorder, Keeps, After, Keeps-pure, Keeps-bind, Keeps-then, Keeps-if,
}
use addressroutinggateway.Nat.{HashTable, Bucket, clean_nat_table}
use addressroutinggateway.Machine.Steps.{Step, Reach, here, next}
use addressroutinggateway.Machine.Calls.{Runs}

module _ (h : HashTable Bucket) where
  open h use {Table, items, hash_find, hash_add, store}

  -- One step of the program: one of hopper.c and protocol.c, or a change of the table: a new bucket
  -- for a key that has none, a store to a bucket that is there, or a cleaning.
  pub data Move (u : World Table) : World Table → Type 0 where
    gateways : {v : World Table} → Step u v → Move u v
    add_bucket :
        (k : ℕ) (b : Bucket)
        → hash_find k u.nat_table ≡ none
        → Move u (record u { nat_table = hash_add k b u.nat_table })
    store_bucket : (k : ℕ) (b : Bucket) → Move u (record u { nat_table = store k b u.nat_table })
    clean : (env : Env) {v : World Table} → clean_nat_table h env u ≡ done tt v → Move u v

  pub data Moves (u : World Table) : World Table → Type 0 where
    stay : Moves u u
    move : {v w : World Table} → Moves u v → Move v w → Moves u w

  pub Moves-trans : {u v w : World Table} → Moves u v → Moves v w → Moves u w
  Moves-trans r stay = r
  Moves-trans r (move s t) = move (Moves-trans r s) t

  pub Moves-IsPreorder : IsPreorder Moves
  Moves-IsPreorder = record { reflexive = λ w. stay; transitive = λ u v w. Moves-trans }

  Moves-Reach : {u v : World Table} → Reach u v → Moves u v
  Moves-Reach here = stay
  Moves-Reach (next r s) = move (Moves-Reach r) (Move.gateways s)

  -- The call makes only steps of the program.
  abbrev pub Makes : {A : Type 0} → Run Table A → Type 0
  Makes m = Keeps Moves m

  After-Moves :
      {A : Type 0} (u : World Table) (o : Outcome Table A) → After (Reach u) o → After (Moves u) o
  After-Moves u (done a w) r = Moves-Reach r
  After-Moves u null_dereference r = tt
  After-Moves u deadlock r = tt

  pub Makes-Runs : (A : Type 0) (m : Run Table A) → Runs m → Makes m
  unfolding Keeps
  Makes-Runs A m k w = After-Moves w (m w) (k w)

  pub Makes-pure : (A : Type 0) (a : A) → Makes (pure a)
  Makes-pure A a = Keeps-pure Moves Moves-IsPreorder a

  pub Makes-bind :
      (A B : Type 0) (m : Run Table A) (f : A → Run Table B)
      → Makes m
      → ((a : A) → Makes (f a))
      → Makes (m >>= f)
  Makes-bind A B m f k l = Keeps-bind Moves Moves-IsPreorder m f k l

  pub Makes-then :
      (A B : Type 0) (m : Run Table A) (n : Run Table B) → Makes m → Makes n → Makes (m >> n)
  Makes-then A B m n k l = Keeps-then Moves Moves-IsPreorder m n k l

  pub Makes-if :
      (A : Type 0) (b : Bool) (m n : Run Table A) → Makes m → Makes n → Makes (if b then m else n)
  Makes-if A b m n k l = Keeps-if Moves Moves-IsPreorder b m n k l
