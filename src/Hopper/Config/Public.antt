-- ===== src/Hopper/Config/Public.antt =====
-- settings.c: what `read_public_key` leaves of a gateway's structure.
use addressroutinggateway.Prelude.{arith, [], ◌∷◌, Bool-cases, is_zero, inl, inr}
use addressroutinggateway.Settings.Config.{◌>>=◌}
use addressroutinggateway.Settings.Keys.{
  taken, checked_key, read_number, read_private_from, read_private_key,
}
use addressroutinggateway.Prelude.{ℕ, ◌≡◌, refl, List, ◌⊎◌, inl, inr, ℤ}
use addressroutinggateway.Settings.Lines.{
  NextLine, line_read, end_of_file, before_buffer, out_of_fuel, get_next_line,
}
use addressroutinggateway.Settings.Config.{
  Reading, got, failed, null_dereference, stray_access, unfinished, max_conf_line,
}
use addressroutinggateway.Settings.Keys.{
  KeyLibrary, public_e, public_n, public_mask, public_ip, key_path, read_public_from,
  read_public_key,
}
use addressroutinggateway.Prelude.Text.{codes}
use addressroutinggateway.World.{Gate}
use addressroutinggateway.Settings.Lines.Bounds.{StaysIn, get_next_line-StaysIn}

-- The public key file changes the address, the mask and the key alone.
abbrev pub SameState : Gate → Gate → Type 0
SameState g g' = (g'.connected ≡ g.connected) × (g'.proto ≡ g.proto) × (g'.name ≡ g.name)

-- A call that ends, with a result or with an error or outside of the line buffer.
abbrev pub Ends : {A : Type 0} → (A → Type 0) → Reading A → Type 0
Ends P (got a) = P a
Ends P (failed err) = Unit {0}
Ends P null_dereference = ⊥
Ends P stray_access = Unit {0}
Ends P unfinished = ⊥

module _ (lib : KeyLibrary) (g : Gate) where
  public_e-SameState :
      (g' : Gate) (o : ℤ ⊎ (ℕ × List ℕ)) → SameState g g' → SameState g (public_e lib g' o).1
  public_e-SameState g' (inl err) h = h
  public_e-SameState g' (inr number) h = h

  public_n-SameState :
      (g' : Gate) (o : ℤ ⊎ (ℕ × List ℕ)) → SameState g g' → SameState g (public_n lib g' o).1
  public_n-SameState g' (inl err) h = h
  public_n-SameState g' (inr (n, s)) h =
      public_e-SameState (record g' { rsa = record g'.rsa { n = n } }) (lib.mpi_read_file s) h

  public_mask-SameState :
      (s : List ℕ) (g' : Gate) (o : NextLine)
      → StaysIn max_conf_line s o
      → SameState g g'
      → Ends (λ x. SameState g x.1) (public_mask lib g' o)
  public_mask-SameState s0 g' (line_read l s) stays h = public_n-SameState _ (lib.mpi_read_file s) h
  public_mask-SameState s0 g' end_of_file stays h = h
  public_mask-SameState s0 g' before_buffer stays h = tt
  public_mask-SameState s0 g' out_of_fuel stays h = stays

  public_ip-SameState :
      (s : List ℕ) (g' : Gate) (o : NextLine)
      → StaysIn max_conf_line s o
      → SameState g g'
      → Ends (λ x. SameState g x.1) (public_ip lib g' o)
  public_ip-SameState s0 g' (line_read l s) stays h =
      public_mask-SameState s _ (get_next_line max_conf_line s)
        (get_next_line-StaysIn max_conf_line s (omega arith)) h
  public_ip-SameState s0 g' end_of_file stays h = h
  public_ip-SameState s0 g' before_buffer stays h = tt
  public_ip-SameState s0 g' out_of_fuel stays h = stays

  read_public_from-SameState :
      (o : ℕ ⊎ List ℕ) → Ends (λ x. SameState g x.1) (read_public_from lib g o)
  read_public_from-SameState (inl errno) = (refl, refl, refl)
  read_public_from-SameState (inr s) =
      public_ip-SameState s g (get_next_line max_conf_line s)
        (get_next_line-StaysIn max_conf_line s (omega arith)) (refl, refl, refl)

  pub read_public_key-SameState :
      (open_file : List ℕ → ℕ ⊎ List ℕ) (dir : List ℕ)
      → Ends (λ x. SameState g x.1) (read_public_key lib open_file dir g)
  unfolding read_public_key
  read_public_key-SameState open_file dir =
      read_public_from-SameState (open_file (key_path dir g.name (codes ".pub")))

-- A number that cannot be read ends the call.
read_number-then :
    (lib : KeyLibrary) {B : Type 0} (P : B → Type 0) (s : List ℕ) (f : ℕ × List ℕ → Reading B)
    → ((a : ℕ × List ℕ) → Ends P (f a))
    → Ends P (read_number lib s >>= f)
unfolding read_number
read_number-then lib P s f h = by_number (lib.mpi_read_file s)
  where
    by_number : (o : ℤ ⊎ (ℕ × List ℕ)) → Ends P (taken lib o >>= f)
    by_number (inl err) = tt
    by_number (inr number) = h number

module _ (lib : KeyLibrary) (g : Gate) where
  checked_key-SameState :
      (numbers : List ℕ) (ret : ℤ) → Ends (SameState g) (checked_key lib g numbers ret)
  checked_key-SameState [] ret = tt
  checked_key-SameState (n ∷ []) ret = tt
  checked_key-SameState (n ∷ e ∷ []) ret = tt
  checked_key-SameState (n ∷ e ∷ d ∷ rest) ret = elim (Bool-cases (is_zero ret)) [
    | inl good ↦ rw good (refl, refl, refl)
    | inr bad ↦ rw bad tt
  ]

  read_private_from-SameState : (o : ℕ ⊎ List ℕ) → Ends (SameState g) (read_private_from lib g o)
  read_private_from-SameState (inl errno) = tt
  read_private_from-SameState (inr s) = read_number-then lib (SameState g) s _ λ (n, s1).
      read_number-then lib (SameState g) s1 _ λ (e, s2).
        read_number-then lib (SameState g) s2 _ λ (d, s3).
          read_number-then lib (SameState g) s3 _ λ (p, s4).
            read_number-then lib (SameState g) s4 _ λ (q, s5).
              read_number-then lib (SameState g) s5 _ λ (dp, s6).
                read_number-then lib (SameState g) s6 _ λ (dq, s7).
                  read_number-then lib (SameState g) s7 _ λ (qp, s8).
                    checked_key-SameState (n ∷ e ∷ d ∷ p ∷ q ∷ dp ∷ dq ∷ qp ∷ [])
                      (lib.rsa_check_privkey (n ∷ e ∷ d ∷ p ∷ q ∷ dp ∷ dq ∷ qp ∷ []))

  pub read_private_key-SameState :
      (open_file : List ℕ → ℕ ⊎ List ℕ) (dir : List ℕ)
      → Ends (SameState g) (read_private_key lib open_file dir g)
  unfolding read_private_key
  read_private_key-SameState open_file dir =
      read_private_from-SameState (open_file (key_path dir g.name (codes ".priv")))
