-- ===== src/Processes/Tests.antt =====
-- The process list and table at concrete states.
use avocad_os.Base.{◌≡◌, refl, [], ◌∷◌, arith, ok, ◌==◌, if◌then◌else◌}
use avocad_os.Links.{IsRing}
use avocad_os.Processes.{Processes, process_list_remove, process_slot, find_slot}
use avocad_os.Processes.Laws.{process_list_remove-IsRing}

-- 10 → 20 → 10
abbrev two : Processes
two = record {
  links = record { next = λ x. if x == 10 then 20 else 10; prev = λ x. if x == 10 then 20 else 10 };
  system_process = 10;
  processes = 10 ∷ 20 ∷ 0 ∷ 30 ∷ [];
}

two-IsRing : IsRing two.links (10 ∷ 20 ∷ [])
two-IsRing = ground arith

process_slot-two : process_slot two ≡ ok 2
unfolding process_slot find_slot
process_slot-two = refl

process_list_remove-IsRing_example :
    IsRing (process_list_remove two 20).links (10 ∷ [])
    × ((process_list_remove two 20).links.next 20 ≡ 0)
    × ((process_list_remove two 20).links.prev 20 ≡ 0)
process_list_remove-IsRing_example = process_list_remove-IsRing two 20 10 [] (ground arith)
