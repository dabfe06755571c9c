-- ===== src/Kernel/Tests.antt =====
-- The theorems about the kernel at concrete states, and runs of its code.
use bz_os.Prelude.{
  ℕ, ◌*◌, ◌/◌, ◌%◌, ◌↔◌, Bool, ◌≡◌, ◌≢◌, inl, inr, refl, arith, List, [], none, true, done, halt,
  spinning, update, panic,
}
use bz_os.Prelude.Int.{pos, ◌≤ℤ◌}
use bz_os.Kernel.State.{Descriptor, Process, Kernel, no_task, any, interrupt}
use bz_os.Kernel.Memory.{phys_copy, memset, store32}
use bz_os.Kernel.Schedule.{schedule}
use bz_os.Kernel.Ipc.{msg_send, msg_receive, expecting, received, hard_int}
use bz_os.Kernel.Ipc.Chain.{WaitsOn, last, next}
use bz_os.Kernel.Ipc.Deadlock.{sends, deadlock-decides}
use bz_os.Kernel.Ipc.Invariant.{
  Inv, Inv-SameLinks, Inv-SendersInside, IsPointer, Ready, Sending, Receiving,
}
use bz_os.Kernel.Ipc.Join.{joined}
use bz_os.Kernel.Ipc.Enqueue.{enqueue, enqueue-Inv}
use bz_os.Kernel.Ipc.Dequeue.{dequeue}
use bz_os.Kernel.Ipc.Take.{taken}
use bz_os.Kernel.Ipc.{deadlock, inform_int}
use bz_os.Kernel.Ipc.Send.{linear, msg_send-deadlock, msg_send-queue_up, msg_send-rendezvous}
use bz_os.Kernel.Ipc.Receive.{
  msg_receive-any, msg_receive-from, msg_receive-wait, msg_receive-pending,
}
use bz_os.Kernel.Ipc.Inform.{inform_int-delivers}
use bz_os.Kernel.Schedule.Choice.{IsChosen, Renewed, schedule_chooses, schedule_idle}
use bz_os.Kernel.Clock.{clock_handler, count_tick}
use bz_os.Kernel.Clock.Preempt.{IsSound, clock_handler-has_ticks}
use bz_os.Kernel.Descriptor.{init_descriptor, reassembly, seg2linear, ldt_seg_linear}
use bz_os.Kernel.Descriptor.Fields.{init_descriptor_fields}

abbrev flat : Descriptor
flat = record {
  limit_low = 0xffff;
  base_low = 0;
  base_mid = 0;
  attr1 = 0xf2;
  limit_high_attr2 = 0xcf;
  base_high = 0;
}

abbrev idle_process : Process
idle_process = record {
  ldt_sel = 0x28;
  ldt_c = flat;
  ldt_rw = flat;
  ticks = pos 5;
  priority = pos 5;
  name = [];
  flags = 0;
  p_msg = 0;
  recv_from = no_task;
  send_to = no_task;
  has_int_msg = 0;
  q_sending = none;
  next_sending = none;
  filp = λ _. none;
  parent = no_task;
}

abbrev idle_table : ℕ → Process
idle_table _ = idle_process

abbrev in_state : (ℕ → Process) → Kernel
in_state procs = record {
  procs = procs;
  p_proc_ready = 6;
  mem = λ a. a;
  k_reenter = 0;
  tick_count = 0;
  key_pressed = 0;
}

abbrev no_queue : ℕ → List ℕ
no_queue _ = []

idle-Inv : Inv idle_table no_queue
unfolding ldt_seg_linear
idle-Inv = record {
  linked = λ d lt. refl;
  members = λ d p lt i. absurd i;
  queued = λ p d lt e. absurd (cc e);
  distinct = λ d lt. tt;
  status = λ p lt. inl (omega arith);
  ends = λ p lt. (0, refl);
  base = λ p lt. refl;
}

idle_alone : (p d : ℕ) → ¬ WaitsOn (sends idle_table) p d
idle_alone p d (last e) = cc e
idle_alone p d (next e w) = cc e

-- Process 6 is sending to process 5, from address 4096.
abbrev one_sender : ℕ → Process
one_sender = joined idle_table 6 5 4096 []

sender_ok : IsPointer 4096
sender_ok = omega arith

one_sender-Inv : Inv one_sender (enqueue no_queue 5 6)
one_sender-Inv =
    enqueue-Inv idle-Inv 6 5 4096 (omega arith) (omega arith) (omega arith) (omega arith) sender_ok
      (idle_alone 5 6)

five-WaitsOn : WaitsOn (sends one_sender) 6 5
unfolding joined
five-WaitsOn = last refl

five_ready : Ready (one_sender 5)
unfolding joined
five_ready = omega arith

-- Process 5 is waiting for a message, to be put at address 8192.
abbrev one_receiver : ℕ → Process
one_receiver = update idle_table 5 (expecting idle_process any 8192)

one_receiver-Inv : Inv one_receiver no_queue
one_receiver-Inv = Inv-SameLinks (λ p. ground arith) (λ p lt. ground arith) idle-Inv

receiver_alone : (p d : ℕ) → ¬ WaitsOn (sends one_receiver) p d
receiver_alone p d (last e) = ground arith
receiver_alone p d (next e w) = ground arith

-- Process 6 has an interrupt to handle.
abbrev interrupted : ℕ → Process
interrupted = update idle_table 6 (record idle_process { has_int_msg = 1 })

interrupted-Inv : Inv interrupted no_queue
interrupted-Inv = Inv-SameLinks (λ p. ground arith) (λ p lt. ground arith) idle-Inv

idle-IsSound : IsSound (in_state idle_table) no_queue
idle-IsSound = record { table = idle-Inv; ready_in = omega arith; runs = refl }

deadlock-decides_example :
    (b : Bool) × (deadlock one_sender 5 6 ≡ done b) × ((b ≡ true) ↔ WaitsOn (sends one_sender) 6 5)
deadlock-decides_example =
    deadlock-decides one_sender 5 6 (one_sender-Inv.ends 6 (omega arith)).0
      (Inv-SendersInside one_sender-Inv) (omega arith) (one_sender-Inv.ends 6 (omega arith)).1

-- 5 asks to send to 6, which is waiting to send to 5.
msg_send-deadlock_example : msg_send (in_state one_sender) 5 6 4096 ≡ halt panic
msg_send-deadlock_example =
    msg_send-deadlock (in_state one_sender) one_sender-Inv 5 6 4096 (omega arith) (omega arith)
      (omega arith) five_ready sender_ok five-WaitsOn

msg_send-queue_up_example :
    (t : ℕ → Process) × (msg_send (in_state idle_table) 6 5 4096
      ≡ schedule 2 (record (in_state idle_table) { procs = t }))
    × Inv t (enqueue no_queue 5 6)
    × Sending (t 6)
    × ((t 6).send_to ≡ 5)
    × ((p : ℕ) → p ≢ 6 → ((t p).flags ≡ 0) × ((t p).priority ≡ pos 5))
msg_send-queue_up_example =
    msg_send-queue_up (in_state idle_table) idle-Inv 6 5 4096 (omega arith) (omega arith)
      (omega arith) (omega arith) sender_ok (idle_alone 5 6) refl

msg_send-rendezvous_example :
    (msg_send (in_state one_receiver) 6 5 4096
      ≡ done (record (in_state one_receiver) {
        procs = update one_receiver 5 (received (one_receiver 5));
        mem =
            phys_copy
              (linear (in_state one_receiver) 5 8192)
              (linear (in_state one_receiver) 6 4096)
              48
              (λ a. a);
      }))
    × Inv (update one_receiver 5 (received (one_receiver 5))) no_queue
msg_send-rendezvous_example =
    msg_send-rendezvous (in_state one_receiver) one_receiver-Inv 6 5 4096 (omega arith)
      (omega arith) (omega arith) (omega arith) sender_ok refl (receiver_alone 5 6)

msg_receive-any_example :
    (msg_receive (in_state one_sender) 5 any 8192
      ≡ done (record (in_state one_sender) {
        procs = taken one_sender 5 6 none;
        mem =
            phys_copy
              (linear (in_state one_sender) 5 8192)
              (linear (in_state one_sender) 6 (one_sender 6).p_msg)
              48
              (λ a. a);
      }))
    × Ready (taken one_sender 5 6 none 6)
    × Inv (taken one_sender 5 6 none) (update (enqueue no_queue 5 6) 5 [])
unfolding joined
msg_receive-any_example =
    msg_receive-any (in_state one_sender) one_sender-Inv 5 8192 (omega arith) five_ready
      (omega arith) 6 [] refl refl

msg_receive-from_example :
    (msg_receive (in_state one_sender) 5 6 8192
      ≡ done (record (in_state one_sender) {
        procs = taken one_sender 5 6 none;
        mem =
            phys_copy
              (linear (in_state one_sender) 5 8192)
              (linear (in_state one_sender) 6 (one_sender 6).p_msg)
              48
              (λ a. a);
      }))
    × Ready (taken one_sender 5 6 none 6)
    × Inv (taken one_sender 5 6 none) (dequeue (enqueue no_queue 5 6) 5 6)
msg_receive-from_example =
    msg_receive-from (in_state one_sender) one_sender-Inv 5 8192 (omega arith) five_ready
      (omega arith) 6 (inl refl)

msg_receive-wait_example :
    (t : ℕ → Process) × (msg_receive (in_state idle_table) 5 6 8192
      ≡ schedule 2 (record (in_state idle_table) { procs = t }))
    × Inv t no_queue
    × Receiving (t 5)
    × ((t 5).recv_from ≡ 6)
    × ((p : ℕ) → p ≢ 5 → t p ≡ idle_process)
msg_receive-wait_example =
    msg_receive-wait (in_state idle_table) idle-Inv 5 8192 (omega arith) (omega arith) (omega arith)
      6 (inr (omega arith, λ e. cc e)) (omega arith) (omega arith) refl

msg_receive-pending_example :
    ¬ ((k' : Kernel) × (msg_receive (in_state interrupted) 6 1 8192 ≡ done k'))
msg_receive-pending_example =
    msg_receive-pending (in_state interrupted) interrupted-Inv 6 8192 (omega arith) (omega arith)
      (omega arith) 1 (inr (omega arith, λ e. cc e)) (omega arith) (omega arith)
      (omega arith, omega arith) (omega arith)

inform_int-delivers_example :
    (t : ℕ → Process) × (inform_int (in_state one_receiver) 5
      ≡ done (record (in_state one_receiver) {
        procs = t;
        mem = store32 8196 hard_int (store32 8192 interrupt (λ a. a));
      }))
    × Ready (t 5)
    × ((t 5).has_int_msg ≡ 0)
    × ((p : ℕ) → p ≢ 5 → t p ≡ one_receiver p)
    × Inv t no_queue
inform_int-delivers_example =
    inform_int-delivers (in_state one_receiver) one_receiver-Inv 5 (omega arith) refl

schedule_chooses_example :
    (t : ℕ → Process) × (r : ℕ) × (schedule 2 (in_state idle_table)
      ≡ done (record (in_state idle_table) { procs = t; p_proc_ready = r }))
    × IsChosen t r
    × Renewed idle_table t
schedule_chooses_example =
    schedule_chooses 0 (in_state idle_table) 3 (omega arith) refl (omega arith)

schedule_idle_example :
    schedule 7 (in_state (λ _. record idle_process { flags = 0x20 })) ≡ halt spinning
schedule_idle_example =
    schedule_idle 7 (in_state (λ _. record idle_process { flags = 0x20 })) (λ q lt. omega arith)

clock_handler-has_ticks_example :
    pos 1
    ≤ℤ (((count_tick (in_state idle_table)).procs)
        ((count_tick (in_state idle_table)).p_proc_ready)).ticks
unfolding clock_handler
clock_handler-has_ticks_example =
    clock_handler-has_ticks (in_state idle_table) idle-IsSound refl
      (count_tick (in_state idle_table)) refl

init_descriptor_fields_example :
    let d = init_descriptor 0xa00000 0xff 0xc0f2 in
    (reassembly d.base_high 24 d.base_mid 16 d.base_low ≡ 0xa00000)
    × (reassembly 0 0 (d.limit_high_attr2 % 16) 16 d.limit_low ≡ 0xff)
    × (d.attr1 ≡ 0xf2)
    × (d.limit_high_attr2 / 16 ≡ 12)
init_descriptor_fields_example =
    init_descriptor_fields 0xa00000 0xff 0xc0f2 (omega arith) (omega arith)

-- Runs of the code.
memory_tests :
    (memset 16 7 4 (λ a. a) 19 ≡ 7)
    × (memset 16 7 4 (λ a. a) 20 ≡ 20)
    × (store32 16 interrupt (λ a. a) 16 ≡ 246)
    × (store32 16 interrupt (λ a. a) 19 ≡ 255)
unfolding memset store32
memory_tests = (refl, refl, refl, refl)

seg2linear_test : seg2linear (λ i. init_descriptor (i * 0x1000) 0xff 0xc0f2) 0x28 ≡ 0x5000
unfolding seg2linear init_descriptor
seg2linear_test = refl
