-- ===== src/Nat/Kept.antt =====
-- nat.c: which entries and buckets `clean_nat_table` keeps.
use addressroutinggateway.Prelude.{
  subst, ℕ, suc, ◌≡◌, sym, List, [], ◌∷◌, Bool-cases, inl, inr, pos, ltb_ℤ, ◌≤ℤ◌, arith,
}
use addressroutinggateway.Utility.Time.{Timespec, time_offset}
use addressroutinggateway.World.{World, done, Env}
use addressroutinggateway.Nat.Distinct.{IsDistinct}
use addressroutinggateway.Nat.Table.{HashTable}
use addressroutinggateway.Nat.Entries.{NatEntry, Bucket}
use addressroutinggateway.Nat.Clean.{is_too_old, keep_recent, clean_nat_table}
use addressroutinggateway.Nat.Expiry.{keep_bucket, clean_items, clean_nat_table_lem}

-- The second list has, in their order, the entries of the first that have been used in the last 20
-- seconds, and no others.
pub data AreKept (now : Timespec) : List NatEntry → List NatEntry → Type 0 where
  nothing : AreKept now [] []
  kept :
      (e : NatEntry) {es fs : List NatEntry}
      → time_offset e.last_used now ≤ℤ pos 20000
      → AreKept now es fs
      → AreKept now (e ∷ es) (e ∷ fs)
  dropped :
      (e : NatEntry) {es fs : List NatEntry}
      → ¬ (time_offset e.last_used now ≤ℤ pos 20000)
      → AreKept now es fs
      → AreKept now (e ∷ es) fs

-- The second table has, in their order, the buckets of the first in which an entry is kept, with
-- those entries, and no others.
pub data AreCleaned (now : Timespec) : List (ℕ × Bucket) → List (ℕ × Bucket) → Type 0 where
  no_bucket : AreCleaned now [] []
  left_bucket :
      (k : ℕ) (b : Bucket) (e : NatEntry) (es : List NatEntry) {xs ys : List (ℕ × Bucket)}
      → AreKept now b.first (e ∷ es)
      → AreCleaned now xs ys
      → AreCleaned now ((k, b) ∷ xs) ((k, record b { first = e ∷ es }) ∷ ys)
  removed_bucket :
      (k : ℕ) (b : Bucket) {xs ys : List (ℕ × Bucket)}
      → AreKept now b.first []
      → AreCleaned now xs ys
      → AreCleaned now ((k, b) ∷ xs) ys

keep_recent-AreKept : (now : Timespec) (es : List NatEntry) → AreKept now es (keep_recent now es)
unfolding keep_recent is_too_old
keep_recent-AreKept now [] = nothing
keep_recent-AreKept now (e ∷ es) =
    elim (Bool-cases (ltb_ℤ (pos 20000) (time_offset e.last_used now))) [
      | inl old ↦ rw old (dropped e (λ recent. ground arith) (keep_recent-AreKept now es))
      | inr recent ↦ rw recent (kept e (ground arith) (keep_recent-AreKept now es))
    ]

keep_bucket-AreCleaned :
    (now : Timespec) (k : ℕ) (b : Bucket) (fs : List NatEntry) (xs ys : List (ℕ × Bucket))
    → AreKept now b.first fs
    → AreCleaned now xs ys
    → AreCleaned now ((k, b) ∷ xs) (keep_bucket k b fs ys)
keep_bucket-AreCleaned now k b [] xs ys h c = removed_bucket k b h c
keep_bucket-AreCleaned now k b (e ∷ es) xs ys h c = left_bucket k b e es h c

clean_items-AreCleaned :
    (now : Timespec) (xs : List (ℕ × Bucket)) → AreCleaned now xs (clean_items now xs)
clean_items-AreCleaned now [] = no_bucket
clean_items-AreCleaned now ((k, b) ∷ xs) =
    keep_bucket-AreCleaned now k b (keep_recent now b.first) xs (clean_items now xs)
      (keep_recent-AreKept now b.first) (clean_items-AreCleaned now xs)

-- On a table in which no key stands twice `clean_nat_table` returns. It keeps, in their order, the
-- entries that have been used in the last 20 seconds (20000 ms at the reading of the clock) and the
-- buckets in which such an entry stands, with those entries, and no other entry or bucket. Of the rest
-- of the state only the count of clock readings changes.
pub clean_nat_table-AreCleaned :
    (h : HashTable Bucket) (env : Env) (w : World h.Table)
    → IsDistinct (h.items w.nat_table)
    → (t : h.Table) × (clean_nat_table h env w
        ≡ done tt (record w { clock_reads = suc w.clock_reads; nat_table = t }))
      × AreCleaned (env.clock w.clock_reads) (h.items w.nat_table) (h.items t)
clean_nat_table-AreCleaned h env w d =
    let (t, ran, left, recent) = clean_nat_table_lem h env w d in
    let now = env.clock w.clock_reads in
    (
      t,
      ran,
      subst (AreCleaned now (h.items w.nat_table)) (sym left)
          (clean_items-AreCleaned now (h.items w.nat_table)),
    )
