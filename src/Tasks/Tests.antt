-- ===== src/Tasks/Tests.antt =====
-- The scheduler on a ring of three tasks, and the theorems about it at that ring.
use avocad_os.Base.{ℕ, ◌<◌, take, ◌+◌, ◌*◌, ◌≡◌, refl, [], ◌∷◌, arith, ◌==◌, if◌then◌else◌}
use avocad_os.Links.{Links, IsRing}
use avocad_os.Tasks.{Tasks, schedule, run, task_list_remove}
use avocad_os.Tasks.Turns.{run-turn}
use avocad_os.Tasks.Insert.{task_list_remove-IsRing}
use avocad_os.Tasks.Schedule.{Running, Switched, Round, schedule-Switched, schedule-Round}

-- 100 → 200 → 300 → 100
abbrev links : Links
links = record {
  next = λ x. if x == 100 then 200 else if x == 200 then 300 else 100;
  prev = λ x. if x == 100 then 300 else if x == 200 then 100 else 200;
}

abbrev tasks : Tasks
tasks = record {
  links = links;
  current_task = 100;
  kernel_stack_pointer = λ x. x + 7;
  n_switches = λ x. 0;
  tss_esp0 = 0;
  cr3 = 0;
  directory = λ x. x * 4096 + 3;
}

tasks-Running : Running tasks (100 ∷ 200 ∷ 300 ∷ [])
tasks-Running = record { ring = ground arith; no_null = refl; current = refl }

schedule_runs : (schedule tasks 5).0 ≡ 207
unfolding schedule
schedule_runs = refl

cr3_masked : (schedule tasks 5).1.cr3 ≡ 200 * 4096
unfolding schedule
cr3_masked = refl

schedule-Switched_example :
    Switched tasks 5 100 200 (schedule tasks 5).0 (schedule tasks 5).1
    × Running (schedule tasks 5).1 (200 ∷ 300 ∷ 100 ∷ [])
schedule-Switched_example = schedule-Switched tasks 5 100 200 (300 ∷ []) tasks-Running

schedule-Round_example :
    Round (λ x. x + 1) tasks 100 (200 ∷ 300 ∷ []) (run tasks (101 ∷ 201 ∷ 301 ∷ []))
schedule-Round_example = schedule-Round (λ x. x + 1) tasks 100 200 (300 ∷ []) tasks-Running

task_list_remove-IsRing_example :
    IsRing (task_list_remove tasks 100).links (200 ∷ 300 ∷ [])
    × ((task_list_remove tasks 100).links.next 100 ≡ 0)
    × ((task_list_remove tasks 100).links.prev 100 ≡ 0)
task_list_remove-IsRing_example =
    task_list_remove-IsRing tasks 100 200 (300 ∷ []) tasks-Running.ring

run-turn_example : (n : ℕ) × (n < 3) × ((run tasks (take n (1 ∷ 2 ∷ 3 ∷ []))).1.current_task ≡ 300)
run-turn_example =
    run-turn tasks (100 ∷ 200 ∷ 300 ∷ []) (1 ∷ 2 ∷ 3 ∷ []) 300 tasks-Running refl (omega arith)
