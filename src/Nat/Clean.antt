-- ===== src/Nat/Clean.antt =====
-- nat.c: `clean_nat_table` and the removals of entries and buckets.
use addressroutinggateway.Prelude.{ℕ, ◌*◌, List, [], ◌∷◌, Bool, pos, ltb_ℤ, if◌then◌else◌}
use addressroutinggateway.Settings.{nat_clean_time}
use addressroutinggateway.Utility.Time.{Timespec, time_offset}
use addressroutinggateway.World.{Run, modify, ◌>>=◌, Env, current_time}
use addressroutinggateway.Nat.Table.{HashTable}
use addressroutinggateway.Nat.Entries.{NatEntry, Bucket}

-- "Is this connection too old?"
unfoldable pub is_too_old : Timespec → NatEntry → Bool
is_too_old now e = ltb_ℤ (pos (nat_clean_time * 1000)) (time_offset e.last_used now)

-- The inner loop: `remove_nat_entry` unlinks the entries that are too old.
unfoldable pub keep_recent : Timespec → List NatEntry → List NatEntry
keep_recent now [] = []
keep_recent now (e ∷ es) = if is_too_old now e then keep_recent now es else e ∷ keep_recent now es

module _ (h : HashTable Bucket) where
  open h use {Table, items, hash_del, store}

  -- What becomes of one bucket: written back, or removed when no entry is left.
  unfoldable pub clean_bucket : ℕ → Bucket → List NatEntry → Table → Table
  clean_bucket k b [] t = hash_del k t
  clean_bucket k b (e ∷ es) t = store k (record b { first = e ∷ es }) t

  -- The outer loop. It takes the next bucket before it removes one, so it walks the buckets that
  -- the table had at the start.
  unfoldable pub clean_buckets : Timespec → List (ℕ × Bucket) → Table → Table
  clean_buckets now [] t = t
  clean_buckets now ((k, b) ∷ rest) t =
      clean_buckets now rest (clean_bucket k b (keep_recent now b.first) t)

  unfoldable pub clean_nat_table : Env → Run Table (Unit {0})
  clean_nat_table env = do
    now ← current_time env
    modify (λ w. record w { nat_table = clean_buckets now (items w.nat_table) w.nat_table })

  -- `empty_nat_table`: each bucket goes with `remove_nat_bucket`.
  unfoldable pub remove_buckets : List (ℕ × Bucket) → Table → Table
  remove_buckets [] t = t
  remove_buckets ((k, b) ∷ rest) t = remove_buckets rest (hash_del k t)

  unfoldable pub empty_nat_table : Run Table (Unit {0})
  empty_nat_table =
      modify (λ w. record w { nat_table = remove_buckets (items w.nat_table) w.nat_table })
