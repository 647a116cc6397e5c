-- ===== src/Settings/Keys/Generated.antt =====
-- settings.c reads the public key files that gen_gate_config.c writes.
use addressroutinggateway.Prelude.{
  ℕ, ◌+◌, ◌/◌, ◌<◌, ◌≡◌, refl, ap, ◌∙◌, List, [], ◌∷◌, ◌++◌, some, Bool, true, false, ◌⊎◌, inl, inr,
  pos, length, arith,
}
use addressroutinggateway.Prelude.Text.{codes}
use addressroutinggateway.Memory.{Bytes}
use addressroutinggateway.Memory.Strings.{IsString, string_at-strncpy}
use addressroutinggateway.World.{Gate}
use addressroutinggateway.Settings.Lines.{get_next_line}
use addressroutinggateway.Settings.Lines.Print.{
  IsLine, IsPlain-IsString, line_text, get_next_line-lines_text,
}
use addressroutinggateway.Settings.Config.{got, max_conf_line}
use addressroutinggateway.Settings.Keys.{
  KeyLibrary, key_path, read_public_from, public_ip, public_mask, public_n, public_e, or_kept,
  read_public_key,
}
use addressroutinggateway.Settings.Generator.{
  Generator, write_numbers, write_private, name_file, generate,
}

-- A file with this name and text is among those that were written.
abbrev pub Holds : List ℕ → List ℕ → List (List ℕ × List ℕ) → Type 0
Holds name text [] = ⊥
Holds name text ((n, t) ∷ files) = ((n ≡ name) × (t ≡ text)) ⊎ Holds name text files

-- `mpi_read_file` takes a number off a file as `mpi_write_file` has put it there.
abbrev pub ReadsBack : KeyLibrary → Generator → Type 0
ReadsBack lib gen =
    (p : List ℕ) (n : ℕ) (text rest : List ℕ)
    → gen.mpi_write_file p n ≡ inr text
    → lib.mpi_read_file (text ++ rest) ≡ inr (n, rest)

write_private-Holds :
    (gen : Generator) (name key : List ℕ) (files : List (List ℕ × List ℕ)) (file text : List ℕ)
    (made_it : Bool)
    → Holds file text files
    → Holds file text (write_private gen name key files made_it).0
write_private-Holds gen name key files file text true h = inr h
write_private-Holds gen name key files file text false h = h

module _ (lib : KeyLibrary) (gen : Generator) (back : ReadsBack lib gen)
    (name ip mask base_ip net_mask : List ℕ) (n e : ℕ) (more n_text e_text : List ℕ)
    (name_plain : IsString name) (name_short : length name < 9) (ip_line : IsLine max_conf_line ip)
    (ip_short : length ip < 19) (mask_line : IsLine max_conf_line mask)
    (mask_short : length mask < 19) (ip_is : lib.inet_pton ip ≡ some base_ip)
    (mask_is : lib.inet_pton mask ≡ some net_mask) (seeded : gen.ctr_drbg_init ≡ pos 0)
    (made : gen.rsa_gen_key ≡ inr (n ∷ e ∷ more))
    (created : gen.create (name_file name (codes ".pub")) ≡ true)
    (n_written : gen.mpi_write_file (codes "N = ") n ≡ inr n_text)
    (e_written : gen.mpi_write_file (codes "E = ") e ≡ inr e_text) where
  abbrev file_text : List ℕ
  file_text = line_text ip (line_text mask (n_text ++ (e_text ++ [])))

  abbrev pub with_public_key : Gate → Gate
  with_public_key gate = record gate {
    base_ip = base_ip;
    mask = net_mask;
    rsa = record gate.rsa { n = n; e = e; len = (lib.mpi_msb n + 7) / 8 };
  }

  generate-Holds :
      (a b c : Bytes)
      → Holds (name_file name (codes ".pub")) file_text (generate gen name ip mask a b c).0
  unfolding generate write_numbers
  generate-Holds a b c =
      rw
        (
          seeded,
          made,
          string_at-strncpy name 9 10 a name_plain name_short (omega arith),
          string_at-strncpy ip 19 20 b (IsPlain-IsString ip ip_line.0) ip_short (omega arith),
          string_at-strncpy mask 19 20 c (IsPlain-IsString mask mask_line.0) mask_short
              (omega arith),
          created,
          n_written,
          e_written,
        )
        (write_private-Holds
          (record gen { ctr_drbg_init = pos 0; rsa_gen_key = inr (n ∷ e ∷ more) }) name
          (n ∷ e ∷ more) ((name_file name (codes ".pub"), file_text) ∷ [])
          (name_file name (codes ".pub")) file_text (gen.create (name_file name (codes ".priv")))
          (inl (refl, refl)))

  read_public_key-text :
      (open_file : List ℕ → ℕ ⊎ List ℕ) (dir : List ℕ) (gate : Gate)
      → gate.name ≡ name
      → open_file (key_path dir name (codes ".pub")) ≡ inr file_text
      → read_public_key lib open_file dir gate ≡ got (pos 0, with_public_key gate)
  unfolding read_public_key
  read_public_key-text open_file dir gate named opened =
      ap (λ s. read_public_from lib gate (open_file (key_path dir s (codes ".pub")))) named
      ∙ ap (read_public_from lib gate) opened
      ∙ ap (public_ip lib gate) (
          get_next_line-lines_text [] max_conf_line ip (line_text mask (n_text ++ (e_text ++ [])))
            tt ip_line)
      ∙ ap
          (λ o.
            public_mask lib (record gate { base_ip = or_kept o gate.base_ip })
              (get_next_line max_conf_line (line_text mask (n_text ++ (e_text ++ [])))))
          ip_is
      ∙ ap (public_mask lib with_base)
          (get_next_line-lines_text [] max_conf_line mask (n_text ++ (e_text ++ [])) tt mask_line)
      ∙ ap
          (λ o. got (
            public_n lib (record with_base { mask = or_kept o gate.mask })
              (lib.mpi_read_file (n_text ++ (e_text ++ [])))))
          mask_is
      ∙ ap (λ x. got (public_n lib (record with_base { mask = net_mask }) x))
          (back (codes "N = ") n n_text (e_text ++ []) n_written)
      ∙ ap
          (λ x. got (
            public_e lib (record with_base { mask = net_mask; rsa = record gate.rsa { n = n } }) x))
          (back (codes "E = ") e e_text [] e_written)
    where
      with_base : Gate
      with_base = record gate { base_ip = base_ip }

  -- Where the public file that gen_gate_config writes for a gate is found in the directory,
  -- `read_public_key` succeeds for the gate of that name, and leaves in its structure the address, the
  -- mask and the public key that went into the file, if the name and the two texts fit their arrays,
  -- the two texts are an address and a mask, no call of the tool fails until the file is written, and
  -- `mpi_read_file` reads back what `mpi_write_file` writes.
  pub read_public_key-generate :
      (a b c : Bytes) (open_file : List ℕ → ℕ ⊎ List ℕ) (dir : List ℕ) (gate : Gate)
      → gate.name ≡ name
      → ((text : List ℕ)
          → Holds (name_file name (codes ".pub")) text (generate gen name ip mask a b c).0
          → open_file (key_path dir name (codes ".pub")) ≡ inr text)
      → read_public_key lib open_file dir gate ≡ got (pos 0, with_public_key gate)
  read_public_key-generate a b c open_file dir gate named stored =
      read_public_key-text open_file dir gate named (stored file_text (generate-Holds a b c))
