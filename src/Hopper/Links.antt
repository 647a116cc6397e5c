-- ===== src/Hopper/Links.antt =====
-- hopper.c and protocol.c: the `next` and `prev` links of the gateways, at the level of pointers. The
-- rest of the library keeps the order of the list instead.
pub mod Fields
pub mod Order
pub mod Made
pub mod Out
pub mod Reached
use addressroutinggateway.Prelude.{
  ℕ, zero, suc, List, [], ◌∷◌, ◌++◌, Option, none, some, Bool, false, ◌==◌, if◌then◌else◌,
}

pub record Node : Type 0 where
  pub next : Option ℕ
  pub prev : Option ℕ

-- The structures, `gateInfo`, and those that `free` has been called on, in their order.
pub record Links : Type 0 where
  pub nodes : ℕ → Node
  pub gate_info : Option ℕ
  pub freed : List ℕ

-- `if(p != NULL) p->next = v`
unfoldable pub set_next : Option ℕ → Option ℕ → (ℕ → Node) → ℕ → Node
set_next none v f b = f b
set_next (some a) v f b = if b == a then record { next = v; prev = (f b).prev } else f b

unfoldable pub set_prev : Option ℕ → Option ℕ → (ℕ → Node) → ℕ → Node
set_prev none v f b = f b
set_prev (some a) v f b = if b == a then record { next = (f b).next; prev = v } else f b

-- A new structure: both links are NULL.
abbrev pub cleared : ℕ → (ℕ → Node) → ℕ → Node
cleared new f b = if b == new then record { next = none; prev = none } else f b

-- The neighbours of the gateway at a are linked to one another.
unfoldable pub unlink : ℕ → (ℕ → Node) → ℕ → Node
unfolding set_next set_prev
unlink a f = let f1 = set_prev (f a).next (f a).prev f in set_next (f1 a).prev (f1 a).next f1

abbrev pub or_new : Option ℕ → ℕ → Option ℕ
or_new none new = some new
or_new (some a) new = some a

-- `prevNet->next = currNet; currNet->prev = prevNet`, if there is one before.
abbrev pub hook : Option ℕ → ℕ → (ℕ → Node) → ℕ → Node
hook none new f = f
hook (some last) new f = set_prev (some new) (some last) (set_next (some last) (some new) f)

-- One more gateway of the configuration, where `last` is the one before.
unfoldable pub append : Option ℕ → ℕ → Links → Links
unfolding set_next set_prev
append last new l = record l {
  gate_info = or_new l.gate_info new;
  nodes = hook last new (cleared new l.nodes);
}

abbrev pub is_at : Option ℕ → ℕ → Bool
is_at none a = false
is_at (some b) a = a == b

-- Before the head g, unless it is the head.
abbrev pub before_head : Option ℕ → ℕ → Links → Links
before_head g a l = if is_at g a then l else record l {
  gate_info = some a;
  nodes = set_next (some a) g (set_prev (some a) none (set_prev g (some a) (unlink a l.nodes)));
}

-- The gateway with the configured name becomes the head.
unfoldable pub move_front : ℕ → Links → Links
unfolding unlink set_next set_prev
move_front a l = before_head l.gate_info a l

-- A gateway that the local one has been told of. The `prev` link of the one behind it is not set.
unfoldable pub link_behind : ℕ → ℕ → Links → Links
unfolding set_next set_prev
link_behind local new l =
    let f = cleared new l.nodes in
    record l {
      nodes =
          set_next (some local) (some new)
            (set_prev (some new) (some local) (set_next (some new) (f local).next f));
    }

unfoldable pub remove_arg_network : ℕ → Links → Links
unfolding unlink
remove_arg_network a l = record l { nodes = unlink a l.nodes; freed = l.freed ++ a ∷ [] }

-- `while(gateInfo->next != NULL)`; without an end after so many rounds there is no result.
unfoldable pub remove_rest : ℕ → ℕ → Links → Option Links
unfolding remove_arg_network
remove_rest zero local l = none
remove_rest (suc fuel) local l = elim (l.nodes local).next [
  | none ↦ some l
  | some a ↦ remove_rest fuel local (remove_arg_network a l)
]

abbrev pub remove_behind : ℕ → Option ℕ → Links → Option Links
remove_behind fuel none l = some l
remove_behind fuel (some local) l = remove_rest fuel local l

unfoldable pub remove_all_associated_arg_networks : ℕ → Links → Option Links
unfolding remove_rest
remove_all_associated_arg_networks fuel l = remove_behind fuel l.gate_info l

-- No gateway has been made.
abbrev pub no_links : Links
no_links = record { nodes = λ a. record { next = none; prev = none }; gate_info = none; freed = [] }
