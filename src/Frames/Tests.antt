-- ===== src/Frames/Tests.antt =====
-- A new task of ring 3 next to the task at 100.
use avocad_os.Base.{◌+◌, ◌-◌, ◌≡◌, refl, false}
use avocad_os.Tasks.{Tasks, task_list_insert, kstack_top, task_next}
use avocad_os.Frames.{
  task_new, new_state, task_push_state_to_kstack, task_push_data_to_kstack, interrupt_frame,
  frame_common, store_words, write_control, cleared, new_task,
}

abbrev tasks : Tasks
tasks = record {
  links = record { next = λ x. 100; prev = λ x. 100 };
  current_task = 100;
  kernel_stack_pointer = λ x. 0;
  n_switches = λ x. 0;
  tss_esp0 = 0;
  cr3 = 0;
  directory = λ x. 0;
}

-- Its frame has 19 words, with the entry point in the fifteenth.
stack_pointer :
    (task_new (λ a. 0) tasks 8192 64 0 false 0x400000 0x4000000).1.0.kernel_stack_pointer 8192
    ≡ kstack_top 8192 - 76
unfolding task_new task_push_state_to_kstack task_push_data_to_kstack interrupt_frame frame_common
    new_state task_list_insert new_task write_control cleared
stack_pointer = refl

entry_point :
    (task_new (λ a. 0) tasks 8192 64 0 false 0x400000 0x4000000).0 (kstack_top 8192 - 76 + 56)
    ≡ 0x400000
unfolding task_new task_push_state_to_kstack task_push_data_to_kstack interrupt_frame frame_common
    new_state store_words kstack_top new_task write_control cleared
entry_point = refl

-- It runs next.
runs_next : task_next (task_new (λ a. 0) tasks 8192 64 0 false 0x400000 0x4000000).1.0 ≡ 8192
unfolding task_next task_new task_push_state_to_kstack task_push_data_to_kstack task_list_insert
    new_task write_control cleared
runs_next = refl
