-- ===== src/Nat/Table.antt =====
-- uthash, which nat.c takes its table from: the calls HASH_FIND_INT, HASH_ADD_INT and HASH_DEL, the
-- walk along `hh.next`, and stores through a pointer that a search has returned. What is relied on
-- is its documentation: a search finds the item with the key, and the walk is in the order of
-- insertion.
use addressroutinggateway.Prelude.{ℕ, ◌≡◌, refl, List, [], ◌∷◌, ◌++◌, Option, none}
use addressroutinggateway.Nat.Dict.{lookup, replace, erase}

pub record HashTable (V : Type 0) : Type 1 where
  pub Table : Type 0
  pub items : Table → List (ℕ × V)
  pub hash_find : ℕ → Table → Option V
  pub hash_add : ℕ → V → Table → Table
  pub hash_del : ℕ → Table → Table
  pub store : ℕ → V → Table → Table
  pub find_items : (k : ℕ) (t : Table) → hash_find k t ≡ lookup k (items t)
  pub items_add :
      (k : ℕ) (v : V) (t : Table)
      → lookup k (items t) ≡ none
      → items (hash_add k v t) ≡ items t ++ (k, v) ∷ []
  pub items_del : (k : ℕ) (t : Table) → items (hash_del k t) ≡ erase k (items t)
  pub items_store : (k : ℕ) (v : V) (t : Table) → items (store k v t) ≡ replace k v (items t)

-- The laws can be met: the list itself.
abbrev pub list_table : (V : Type 0) → HashTable V
list_table V = record {
  Table = List (ℕ × V);
  items = λ xs. xs;
  hash_find = lookup;
  hash_add = λ k v xs. xs ++ (k, v) ∷ [];
  hash_del = erase;
  store = replace;
  find_items = λ k t. refl;
  items_add = λ k v t e. refl;
  items_del = λ k t. refl;
  items_store = λ k v t. refl;
}
