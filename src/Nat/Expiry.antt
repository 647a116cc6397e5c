-- ===== src/Nat/Expiry.antt =====
-- nat.c: what `clean_nat_table` and `empty_nat_table` leave in the table.
use mathlib.Core.List.{append_assoc}
use addressroutinggateway.Prelude.{
  none, subst, ◌≢◌, ℕ, suc, ◌*◌, ◌≡◌, refl, sym, ◌∙◌, List, [], ◌∷◌, ◌++◌, pos, ◌≤ℤ◌, All, arith,
}
use addressroutinggateway.Settings.{nat_clean_time}
use addressroutinggateway.Utility.Time.{Timespec, time_offset}
use addressroutinggateway.World.{current_time, World, done, Env}
use addressroutinggateway.Nat.Distinct.{
  IsDistinct, erase-middle, replace-middle, IsDistinct-without, IsDistinct-changed,
}
use addressroutinggateway.Nat.Dict.{lookup}
use addressroutinggateway.Nat.Table.{HashTable}
use addressroutinggateway.Nat.Entries.{NatEntry, Bucket}
use addressroutinggateway.Nat.Clean.{
  is_too_old, keep_recent, clean_bucket, clean_buckets, clean_nat_table, remove_buckets,
  empty_nat_table,
}

-- A bucket with what is left of its entries, in front of the others; nothing, if none is left.
abbrev pub keep_bucket : ℕ → Bucket → List NatEntry → List (ℕ × Bucket) → List (ℕ × Bucket)
keep_bucket k b [] rest = rest
keep_bucket k b (e ∷ es) rest = (k, record b { first = e ∷ es }) ∷ rest

-- The items that a cleaning at `now` leaves, in their order.
abbrev pub clean_items : Timespec → List (ℕ × Bucket) → List (ℕ × Bucket)
clean_items now [] = []
clean_items now ((k, b) ∷ rest) = keep_bucket k b (keep_recent now b.first) (clean_items now rest)

-- No entry has been idle for more than NAT_CLEAN_TIME seconds.
abbrev pub AreRecent : Timespec → List NatEntry → Type 0
AreRecent now es = All (λ e. time_offset e.last_used now ≤ℤ pos (nat_clean_time * 1000)) es

keep_recent-AreRecent : (now : Timespec) (es : List NatEntry) → AreRecent now (keep_recent now es)
unfolding keep_recent is_too_old
keep_recent-AreRecent now [] = tt
keep_recent-AreRecent now (e ∷ es) = ground (arith, keep_recent-AreRecent now es)

module _ (h : HashTable Bucket) (now : Timespec) where
  open h use {Table, items, hash_del, store, items_del, items_store}

  -- One bucket, the first of those not looked at yet.
  clean_bucket-items :
      (kept : List NatEntry) (k : ℕ) (b : Bucket) (pre rest : List (ℕ × Bucket)) (t : Table)
      → items t ≡ pre ++ (k, b) ∷ rest
      → IsDistinct (pre ++ (k, b) ∷ rest)
      → items (clean_bucket h k b kept t) ≡ pre ++ keep_bucket k b kept rest
  unfolding clean_bucket
  clean_bucket-items [] k b pre rest t e d = rw (items_del k t, e) (erase-middle k b rest pre d)
  clean_bucket-items (x ∷ xs) k b pre rest t e d =
      rw (items_store k (record b { first = x ∷ xs }) t, e)
        (replace-middle k b rest (record b { first = x ∷ xs }) pre d)

  -- What the walk over the rest of the buckets does, wherever they stand in the table.
  abbrev Cleans : List (ℕ × Bucket) → Type 0
  Cleans rest =
      (pre : List (ℕ × Bucket)) (t : Table)
      → items t ≡ pre ++ rest
      → IsDistinct (pre ++ rest)
      → items (clean_buckets h now rest t) ≡ pre ++ clean_items now rest

  clean_step :
      (kept : List NatEntry) (k : ℕ) (b : Bucket) (pre rest : List (ℕ × Bucket)) (t : Table)
      → Cleans rest
      → items t ≡ pre ++ (k, b) ∷ rest
      → IsDistinct (pre ++ (k, b) ∷ rest)
      → items (clean_buckets h now rest (clean_bucket h k b kept t))
        ≡ pre ++ keep_bucket k b kept (clean_items now rest)
  clean_step [] k b pre rest t ih e d =
      ih pre (clean_bucket h k b [] t) (clean_bucket-items [] k b pre rest t e d)
        (IsDistinct-without k b rest pre d)
  clean_step (x ∷ xs) k b pre rest t ih e d =
      let b' : Bucket = record b { first = x ∷ xs } in
      let grown = append_assoc pre ((k, b') ∷ []) rest in
      ih (pre ++ (k, b') ∷ []) (clean_bucket h k b (x ∷ xs) t)
        (clean_bucket-items (x ∷ xs) k b pre rest t e d ∙ sym grown)
        (rw grown (IsDistinct-changed k b rest b' pre d))
      ∙ append_assoc pre ((k, b') ∷ []) (clean_items now rest)

  clean_buckets-items : (rest : List (ℕ × Bucket)) → Cleans rest
  unfolding clean_buckets
  clean_buckets-items [] pre t e d = e
  clean_buckets-items ((k, b) ∷ rest) pre t e d =
      clean_step (keep_recent now b.first) k b pre rest t (clean_buckets-items rest) e d

module _ (h : HashTable Bucket) where
  open h use {Table, items, hash_del, items_del}

  remove_buckets-items :
      (rest : List (ℕ × Bucket)) (t : Table) → items t ≡ rest → items (remove_buckets h rest t) ≡ []
  unfolding remove_buckets
  remove_buckets-items [] t e = e
  remove_buckets-items ((k, b) ∷ rest) t e =
      remove_buckets-items rest (hash_del k t) (rw (items_del k t, e) (ground arith))

-- The buckets that are left hold entries, all of them recent.
abbrev pub IsClean : Timespec → List (ℕ × Bucket) → Type 0
IsClean now [] = Unit {0}
IsClean now ((k, b) ∷ rest) = (b.first ≢ []) × AreRecent now b.first × IsClean now rest

keep_bucket-IsClean :
    (now : Timespec) (k : ℕ) (b : Bucket) (kept : List NatEntry) (rest : List (ℕ × Bucket))
    → AreRecent now kept
    → IsClean now rest
    → IsClean now (keep_bucket k b kept rest)
keep_bucket-IsClean now k b [] rest r c = c
keep_bucket-IsClean now k b (e ∷ es) rest r c = ((λ eq. cc), r, c)

clean_items-IsClean : (now : Timespec) (xs : List (ℕ × Bucket)) → IsClean now (clean_items now xs)
clean_items-IsClean now [] = tt
clean_items-IsClean now ((k, b) ∷ rest) =
    keep_bucket-IsClean now k b (keep_recent now b.first) (clean_items now rest)
      (keep_recent-AreRecent now b.first) (clean_items-IsClean now rest)

lookup-none-keep_bucket :
    (j k : ℕ) (b : Bucket) (kept : List NatEntry) (rest : List (ℕ × Bucket))
    → j ≢ k
    → lookup j rest ≡ none
    → lookup j (keep_bucket k b kept rest) ≡ none
lookup-none-keep_bucket j k b [] rest ne h = h
lookup-none-keep_bucket j k b (e ∷ es) rest ne h = ground arith

lookup-none-clean_items :
    (now : Timespec) (j : ℕ) (xs : List (ℕ × Bucket))
    → lookup j xs ≡ none
    → lookup j (clean_items now xs) ≡ none
lookup-none-clean_items now j [] h = refl
lookup-none-clean_items now j ((k, b) ∷ rest) h =
    lookup-none-keep_bucket j k b (keep_recent now b.first) (clean_items now rest) (ground arith)
      (lookup-none-clean_items now j rest (ground arith))

keep_bucket-IsDistinct :
    (k : ℕ) (b : Bucket) (kept : List NatEntry) (rest : List (ℕ × Bucket))
    → lookup k rest ≡ none
    → IsDistinct rest
    → IsDistinct (keep_bucket k b kept rest)
keep_bucket-IsDistinct k b [] rest h d = d
keep_bucket-IsDistinct k b (e ∷ es) rest h d = (h, d)

pub clean_items-IsDistinct :
    (now : Timespec) (xs : List (ℕ × Bucket)) → IsDistinct xs → IsDistinct (clean_items now xs)
clean_items-IsDistinct now [] d = tt
clean_items-IsDistinct now ((k, b) ∷ rest) d =
    keep_bucket-IsDistinct k b (keep_recent now b.first) (clean_items now rest)
      (lookup-none-clean_items now k rest d.0) (clean_items-IsDistinct now rest d.1)

-- On a table in which no key stands twice `clean_nat_table` returns. It leaves, in their order, the
-- buckets with their recent entries and without those that have none; so every bucket that is left
-- has an entry, and no entry that is left has been idle for more than 20 seconds. Of the rest of the
-- state only the count of clock readings changes.
pub clean_nat_table_lem :
    (h : HashTable Bucket) (env : Env) (w : World h.Table)
    → IsDistinct (h.items w.nat_table)
    → (t : h.Table) × (clean_nat_table h env w
        ≡ done tt (record w { clock_reads = suc w.clock_reads; nat_table = t }))
      × (h.items t ≡ clean_items (env.clock w.clock_reads) (h.items w.nat_table))
      × IsClean (env.clock w.clock_reads) (h.items t)
unfolding clean_nat_table current_time
clean_nat_table_lem h env w d =
    let now = env.clock w.clock_reads in
    let left = clean_buckets-items h now (h.items w.nat_table) [] w.nat_table refl d in
    (
      clean_buckets h now (h.items w.nat_table) w.nat_table,
      refl,
      left,
      subst (IsClean now) (sym left) (clean_items-IsClean now (h.items w.nat_table)),
    )

-- `empty_nat_table` returns and leaves no bucket, and nothing but the table changes.
pub empty_nat_table_lem :
    (h : HashTable Bucket) (w : World h.Table)
    → (t : h.Table) × (empty_nat_table h w ≡ done tt (record w { nat_table = t }))
      × (h.items t ≡ [])
unfolding empty_nat_table
empty_nat_table_lem h w = (
  remove_buckets h (h.items w.nat_table) w.nat_table,
  refl,
  remove_buckets-items h (h.items w.nat_table) w.nat_table refl,
)
