-- ===== src/Tasks/Insert.antt =====
-- `task_list_insert` and `task_list_remove` of src/kernel/task/task.c keep the ring of tasks.
use avocad_os.Base.{ℕ, ◌≡◌, refl, false, List, ◌∷◌, arith, ◌==◌}
use avocad_os.Links.{has, IsRing}
use avocad_os.Links.Splice.{Spliced, IsRing-splice, unlink-IsRing, next-mem, mem-ne}
use avocad_os.Tasks.{Tasks, task_list_insert, task_list_remove}

insert-Spliced :
    (s : Tasks) (t : ℕ)
    → (s.current_task == t) ≡ false
    → (s.links.next s.current_task == t) ≡ false
    → Spliced s.links (task_list_insert s t).links s.current_task t (s.links.next s.current_task)
unfolding task_list_insert
insert-Spliced s t ne ne' = record {
  next_a = ground arith;
  prev_t = ground arith;
  next_t = ground arith;
  prev_b = ground arith;
  other_next = λ x h k. ground arith;
  other_prev = λ x h k. ground arith;
}

-- A task that is in no list yet becomes the one behind the current task; the rest of the ring keeps
-- its order.
pub task_list_insert-IsRing :
    (s : Tasks) (t : ℕ) (xs : List ℕ)
    → IsRing s.links (s.current_task ∷ xs)
    → has t (s.current_task ∷ xs) ≡ false
    → IsRing (task_list_insert s t).links (s.current_task ∷ t ∷ xs)
task_list_insert-IsRing s t xs r fresh =
    let ne =
      mem-ne (s.links.next s.current_task) t (s.current_task ∷ xs)
        (next-mem s.links s.current_task xs r.0) fresh in
    IsRing-splice s.links (task_list_insert s t).links s.current_task t
      (s.links.next s.current_task) xs r fresh refl (insert-Spliced s t (ground arith) ne)

-- A task of a ring of at least two can be taken out: what is left is a ring in the same order, and the
-- links of the task are cleared.
pub task_list_remove-IsRing :
    (s : Tasks) (t x : ℕ) (xs : List ℕ)
    → IsRing s.links (t ∷ x ∷ xs)
    → IsRing (task_list_remove s t).links (x ∷ xs)
      × ((task_list_remove s t).links.next t ≡ 0)
      × ((task_list_remove s t).links.prev t ≡ 0)
unfolding task_list_remove
task_list_remove-IsRing s t x xs r = unlink-IsRing s.links t x xs r
