-- ===== src/Tests/Links.antt =====
-- Three gateways of a configuration, the second of which is the local one; it is told of a fourth.
use addressroutinggateway.Prelude.{ℕ, ◌≡◌, refl, List, [], ◌∷◌, Option, none, some, inl, inr}
use addressroutinggateway.Hopper.Config.{to_front, without}
use addressroutinggateway.Hopper.Create.{insert_behind}
use addressroutinggateway.Hopper.Links.{
  Links, no_links, append, move_front, link_behind, set_next, set_prev, unlink, remove_arg_network,
  remove_rest, remove_all_associated_arg_networks,
}
use addressroutinggateway.Hopper.Links.Order.{Chain, EndsAlone, rounds}
use addressroutinggateway.Hopper.Links.Reached.{
  IsBuilt, nothing, made, IsReached, moved_front, told, remove_all_associated_arg_networks-order,
}
use addressroutinggateway.Machine.Invariant.{IsOnce}

abbrev configured : Links
configured = append (some 6) 7 (append (some 5) 6 (append none 5 no_links))

configured-IsBuilt : IsBuilt configured (5 ∷ 6 ∷ 7 ∷ []) (some 7)
configured-IsBuilt =
    made 7 (made 6 (made 5 nothing tt) ((λ e. cc), tt)) ((λ e. cc), ((λ e. cc), tt))

abbrev four_links : Links
four_links = link_behind 6 9 (move_front 6 configured)

four_links-IsReached : IsReached four_links (6 ∷ 9 ∷ 5 ∷ 7 ∷ [])
unfolding to_front without insert_behind
four_links-IsReached =
    told 6 (5 ∷ 7 ∷ []) 9 (moved_front 6 configured-IsBuilt (inr (inl refl)))
      ((λ e. cc), ((λ e. cc), ((λ e. cc), tt)))

abbrev freed_of : Option Links → List ℕ
freed_of none = []
freed_of (some l) = l.freed

removed : freed_of (remove_all_associated_arg_networks 4 four_links) ≡ 9 ∷ 5 ∷ 7 ∷ []
unfolding remove_all_associated_arg_networks remove_rest remove_arg_network unlink set_next set_prev
    link_behind move_front append
removed = refl

remove_all_associated_arg_networks-order_example :
    Chain four_links.nodes four_links.gate_info (6 ∷ 9 ∷ 5 ∷ 7 ∷ [])
    × IsOnce (6 ∷ 9 ∷ 5 ∷ 7 ∷ [])
    × EndsAlone four_links 6
        (9 ∷ 5 ∷ 7 ∷ [])
        (remove_all_associated_arg_networks (rounds (9 ∷ 5 ∷ 7 ∷ [])) four_links)
remove_all_associated_arg_networks-order_example =
    remove_all_associated_arg_networks-order four_links 6 (9 ∷ 5 ∷ 7 ∷ []) four_links-IsReached
