-- ===== src/Nodes/Tests.antt =====
-- The operations of list.c on a list of three nodes, and the theorems about them at that list.
use avocad_os.Base.{◌+◌, ◌≡◌, refl, [], ◌∷◌, arith, ◌==◌, if◌then◌else◌, done, ◌>>=◌}
use avocad_os.Links.{Links, IsRing}
use avocad_os.Nodes.{
  Nodes, After, extract_node, extract_copy, find_loop, find_index, pop_index, print_list,
  delete_list, swap, push_index, print_list_reverse, visit_back,
}
use avocad_os.Nodes.Ring.{Inserted, Extracted, extract_node-Extracted}
use avocad_os.Nodes.Insert.{push_index-Inserted}
use avocad_os.Nodes.Walk.{print_list-ring, delete_list-ring}

-- 16 → 32 → 48 → 16
abbrev links : Links
links = record {
  next = λ x. if x == 16 then 32 else if x == 32 then 48 else 16;
  prev = λ x. if x == 16 then 48 else if x == 32 then 16 else 32;
}

abbrev nodes : Nodes
nodes = record { links = links; payload = λ x. (x + 1) ∷ [] }

ring : IsRing links (16 ∷ 32 ∷ 48 ∷ [])
ring = ground arith

extract_node-Extracted_example : Extracted nodes 16 32 (32 ∷ 48 ∷ []) (extract_node nodes 16)
extract_node-Extracted_example = extract_node-Extracted nodes 16 32 (48 ∷ []) ring refl

print_list-ring_example : print_list 3 nodes 16 ≡ done (17 ∷ 33 ∷ 49 ∷ [])
print_list-ring_example = print_list-ring 3 nodes 16 (32 ∷ 48 ∷ []) ring refl (omega arith)

delete_list-ring_example : delete_list 3 nodes 16 ≡ done (16 ∷ 32 ∷ 48 ∷ [], 0)
delete_list-ring_example = delete_list-ring 3 nodes 16 (32 ∷ 48 ∷ []) ring refl (omega arith)

pop_index_runs : (pop_index 3 nodes 16 1 >>= (λ r. done (r.node))) ≡ done 32
unfolding pop_index find_index find_loop extract_copy extract_node
pop_index_runs = refl

-- Neighbours in order are swapped.
swap_ring : IsRing (swap links 16 32).0 (32 ∷ 16 ∷ 48 ∷ [])
unfolding swap
swap_ring = ((refl, refl, (refl, refl, (refl, refl))), ground arith)

-- Neighbours in the other order are not: a node becomes its own next one.
swap_breaks : (swap links 32 16).0.next 32 ≡ 32
unfolding swap
swap_breaks = refl

push_index-Inserted_example :
    (r : After) × (push_index 9 nodes 64 16 2 (7 ∷ []) ≡ done r)
    × Inserted nodes 64 (7 ∷ []) 16 (16 ∷ 32 ∷ 64 ∷ 48 ∷ []) r
push_index-Inserted_example =
    push_index-Inserted 9 nodes 64 16 (32 ∷ []) (48 ∷ []) (7 ∷ []) ring refl refl refl (omega arith)

print_list_reverse_runs : print_list_reverse 3 nodes 16 ≡ done (49 ∷ 33 ∷ 17 ∷ [])
unfolding print_list_reverse visit_back
print_list_reverse_runs = refl
