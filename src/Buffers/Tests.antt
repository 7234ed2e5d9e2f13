-- ===== src/Buffers/Tests.antt =====
-- The circular buffer on a run of its operations, and the theorems about it at a full buffer.
use avocad_os.Base.{◌≡◌, refl, [], ◌∷◌, arith}
use avocad_os.Buffers.{CircularBuffer, full, push_back, pop_front}
use avocad_os.Buffers.Queue.{
  IsValid, contents, enqueue, dequeue, push_back-enqueue, pop_front-dequeue,
}

-- The oldest pointer stands in the middle.
abbrev two_items : CircularBuffer
two_items = record { buffer = 300 ∷ 100 ∷ 200 ∷ []; head = 0; end = 1; count = 2 }

two_items-IsValid : IsValid two_items
two_items-IsValid = record {
  len = refl;
  end_lt = omega arith;
  count_le = omega arith;
  head_is = refl;
}

push_back-enqueue_example :
    IsValid (push_back two_items 400).0
    × (contents (push_back two_items 400).0 ≡ (enqueue (100 ∷ 200 ∷ []) 400).0)
    × ((push_back two_items 400).1 ≡ (enqueue (100 ∷ 200 ∷ []) 400).1)
push_back-enqueue_example = push_back-enqueue two_items 400 two_items-IsValid

pop_front-dequeue_example :
    IsValid (pop_front two_items).0
    × (contents (pop_front two_items).0 ≡ (dequeue (100 ∷ 200 ∷ [])).0)
    × ((pop_front two_items).1 ≡ (dequeue (100 ∷ 200 ∷ [])).1)
pop_front-dequeue_example = pop_front-dequeue two_items two_items-IsValid

push_back_runs : contents (push_back two_items 400).0 ≡ 100 ∷ 200 ∷ 400 ∷ []
unfolding push_back full
push_back_runs = refl
