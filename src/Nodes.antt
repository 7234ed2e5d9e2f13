-- ===== src/Nodes.antt =====
-- list.c: a circular doubly linked list of payloads. A node is its address, 0 for NULL; `malloc` is
-- not part of the repository, so the address that it returns is an argument. An operation on a
-- `struct node **` takes the value of that cell and returns its new one.
mod Tests
pub mod Ring
pub mod Walk
pub mod Insert
use avocad_os.Base.{
  ℕ, zero, suc, ◌+◌, Bool, true, false, not, ◌&&◌, ◌||◌, List, [], ◌∷◌, ◌++◌, map, ltb, ◌==◌,
  if◌then◌else◌, Outcome, done, fault, out_of_fuel, ◌>>=◌, get_or,
}
use avocad_os.Links.{Links, has, set_next, set_prev, update}

-- The links and the payload of every node.
pub record Nodes : Type 0 where
  pub links : Links
  pub payload : ℕ → List ℕ

-- What an operation leaves: the nodes, the cell of the list, and the node that it returns.
pub record After : Type 0 where
  pub nodes : Nodes
  pub cell : ℕ
  pub node : ℕ

-- `add_node_before` once `malloc` has returned a node.
unfoldable pub link_before : Nodes → ℕ → ℕ → List ℕ → After
link_before s new_node list value =
    let payload : ℕ → List ℕ = λ q. if new_node == q then value else s.payload q in
    elim (list == 0) [
      | true ↦
          let l = set_next s.links new_node new_node in
          let l = set_prev l new_node new_node in
          record {
            nodes = record { links = l; payload = payload };
            cell = new_node;
            node = new_node;
          }
      | false ↦
          let l = set_next s.links new_node list in
          let l = set_prev l new_node (l.prev list) in
          let l = set_next l (l.prev list) new_node in
          let l = set_prev l list new_node in
          record { nodes = record { links = l; payload = payload }; cell = list; node = new_node }
    ]

-- `add_node_before`: the result of `malloc` is written through unchecked.
unfoldable pub add_node_before : Nodes → ℕ → ℕ → List ℕ → Outcome After
add_node_before s new_node list value = elim (new_node == 0) [
  | true ↦ fault
  | false ↦ done (link_before s new_node list value)
]

unfoldable pub push_back : Nodes → ℕ → ℕ → List ℕ → Outcome After
push_back s new_node list value = add_node_before s new_node list value

unfoldable pub push_front : Nodes → ℕ → ℕ → List ℕ → Outcome After
push_front s new_node list value =
    push_back s new_node list value >>= (λ r. done (record r { cell = r.node }))

-- `extract_node`
unfoldable pub extract_node : Nodes → ℕ → After
extract_node s list = elim (list == 0) [
  | true ↦ record { nodes = s; cell = list; node = 0 }
  | false ↦
      let ptr = list in
      elim (s.links.next list == list) [
        | true ↦ record { nodes = s; cell = 0; node = ptr }
        | false ↦
            let l = set_next s.links (s.links.prev ptr) (s.links.next list) in
            let l = set_prev l (l.next ptr) (l.prev list) in
            let list = l.next list in
            let l = set_next l ptr ptr in
            let l = set_prev l ptr ptr in
            record { nodes = record s { links = l }; cell = list; node = ptr }
      ]
]

-- `extract_node(&ptr)` of a local copy: the cell of the list is left alone.
unfoldable pub extract_copy : Nodes → ℕ → ℕ → After
extract_copy s list ptr = record (extract_node s ptr) { cell = list }

unfoldable pub pop_back : Nodes → ℕ → After
pop_back s list = elim (list == 0) [
  | true ↦ record { nodes = s; cell = list; node = 0 }
  | false ↦
      let ptr = s.links.prev list in
      elim (s.links.next ptr == ptr) [
        | true ↦ extract_node s list
        | false ↦ extract_copy s list ptr
      ]
]

unfoldable pub pop_front : Nodes → ℕ → After
pop_front s list = elim (list == 0) [
  | true ↦ record { nodes = s; cell = list; node = 0 }
  | false ↦ pop_back s (s.links.next list)
]

-- The loop of `find_index`, on fuel.
unfoldable pub find_loop : Links → ℕ → ℕ → ℕ → ℕ → ℕ → Outcome ℕ
find_loop l list index zero ptr i = out_of_fuel
find_loop l list index (suc fuel) ptr i = elim (i == index) [
  | true ↦ done ptr
  | false ↦
      let ptr = l.next ptr in
      elim (list == ptr) [ true ↦ done 0 | false ↦ find_loop l list index fuel ptr (i + 1) ]
]

unfoldable pub find_index : ℕ → Links → ℕ → ℕ → Outcome ℕ
find_index fuel l list index = elim (list == 0) [
  | true ↦ done 0
  | false ↦ find_loop l list index fuel list 0
]

unfoldable pub pop_index : ℕ → Nodes → ℕ → ℕ → Outcome After
pop_index fuel s list index = elim (list == 0) [
  | true ↦ done (record { nodes = s; cell = list; node = 0 })
  | false ↦ find_index fuel s.links list index >>= (λ ptr. elim (ptr == 0) [
    | true ↦ done (record { nodes = s; cell = list; node = 0 })
    | false ↦ elim (list == ptr) [
      | true ↦ done (extract_node s list)
      | false ↦ done (extract_copy s list ptr)
    ]
  ])
]

-- The nodes that the loop of `print_list` visits, in their order.
unfoldable pub visit : Links → ℕ → ℕ → ℕ → Outcome (List ℕ)
visit l list zero ptr = out_of_fuel
visit l list (suc fuel) ptr =
    let next = l.next ptr in
    elim (list == next) [
      | true ↦ done (ptr ∷ [])
      | false ↦ visit l list fuel next >>= (λ rest. done (ptr ∷ rest))
    ]

-- `print_list`: the first number of each payload.
unfoldable pub print_list : ℕ → Nodes → ℕ → Outcome (List ℕ)
print_list fuel s list = elim (list == 0) [
  | true ↦ done []
  | false ↦ visit s.links list fuel list >>= (λ ps. done (map (λ p. get_or (s.payload p) 0 0) ps))
]

-- The loop of `delete_list` with the nodes that are freed already: the link of a freed node cannot be
-- read, nor can it be freed again.
unfoldable pub delete_loop : Links → ℕ → ℕ → (freed : List ℕ) → ℕ → Outcome (List ℕ)
delete_loop l list zero freed ptr = out_of_fuel
delete_loop l list (suc fuel) freed ptr = elim (has ptr freed) [
  | true ↦ fault
  | false ↦
      let to_free = ptr in
      let ptr = l.next ptr in
      let freed = freed ++ to_free ∷ [] in
      elim (list == ptr) [ true ↦ done freed | false ↦ delete_loop l list fuel freed ptr ]
]

-- `delete_list` on the cell `list`: the nodes that are freed, in their order, and the cell.
unfoldable pub delete_list : ℕ → Nodes → (list : ℕ) → Outcome (List ℕ × ℕ)
delete_list fuel s list = elim (list == 0) [
  | true ↦ done ([], list)
  | false ↦ delete_loop s.links list fuel [] list >>= (λ freed. done (freed, 0))
]

-- `swap`: the nodes after it and the new values of the two cells. The test of neighbours reads the
-- links after the first two writes.
unfoldable pub swap : Links → ℕ → ℕ → Links × (ℕ × ℕ)
swap l n1 n2 = elim (n1 == 0 || n2 == 0) [
  | true ↦ (l, (n1, n2))
  | false ↦
      let n1_prev = l.prev n1 in
      let n2_next = l.next n2 in
      let l = set_next l n1_prev n2 in
      let l = set_prev l n2_next n1 in
      let l : Links = elim (l.next n1 == n2 || l.prev n1 == n2) [
        | true ↦ set_next (set_prev l n1 n2) n2 n1
        | false ↦
            let l = set_prev l (l.next n1) n2 in
            let l = set_next l (l.prev n2) n1 in
            let l = set_prev l n1 (l.prev n2) in set_next l n2 (l.next n1)
      ] in
      let l = set_next l n1 n2_next in let l = set_prev l n2 n1_prev in (l, (n2, n1))
]

-- The loop of `push_index`, on fuel: where it stops, and how many steps it took.
unfoldable pub insert_loop : Links → ℕ → ℕ → ℕ → ℕ → ℕ → Outcome (ℕ × ℕ)
insert_loop l list index zero ptr i = out_of_fuel
insert_loop l list index (suc fuel) ptr i = elim (i == index) [
  | true ↦ done (ptr, i)
  | false ↦
      let ptr = l.next ptr in
      elim (list == ptr) [
        | true ↦ done (ptr, i + 1)
        | false ↦ insert_loop l list index fuel ptr (i + 1)
      ]
]

-- `push_index` from the place on: the node is put in front of it, by a copy of the pointer.
unfoldable pub insert_at : Nodes → ℕ → ℕ → ℕ → List ℕ → ℕ × ℕ → Outcome After
insert_at s new_node list index value place = elim (list == place.0 && not (place.1 == index)) [
  | true ↦ done (record { nodes = s; cell = list; node = 0 })
  | false ↦ push_back s new_node place.0 value >>= (λ r. done (record r { cell = list }))
]

unfoldable pub push_index : ℕ → Nodes → ℕ → ℕ → ℕ → List ℕ → Outcome After
push_index fuel s new_node list index value = elim (index == 0) [
  | true ↦ push_front s new_node list value
  | false ↦ elim (list == 0) [
    | true ↦ done (record { nodes = s; cell = list; node = 0 })
    | false ↦ insert_loop s.links list index fuel list 0 >>= insert_at s new_node list index value
  ]
]

-- The nodes that the loop of `print_list_reverse` visits, where `last` is `list->prev`.
unfoldable pub visit_back : Links → ℕ → ℕ → ℕ → Outcome (List ℕ)
visit_back l last zero ptr = out_of_fuel
visit_back l last (suc fuel) ptr =
    let prev = l.prev ptr in
    elim (last == prev) [
      | true ↦ done (ptr ∷ [])
      | false ↦ visit_back l last fuel prev >>= (λ rest. done (ptr ∷ rest))
    ]

-- `print_list_reverse`: the first number of each payload.
unfoldable pub print_list_reverse : ℕ → Nodes → ℕ → Outcome (List ℕ)
print_list_reverse fuel s list = elim (list == 0) [
  | true ↦ done []
  | false ↦
      visit_back s.links (s.links.prev list) fuel (s.links.prev list)
      >>= (λ ps. done (map (λ p. get_or (s.payload p) 0 0) ps))
]
