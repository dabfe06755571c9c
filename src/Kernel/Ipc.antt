-- ===== src/Kernel/Ipc.antt =====
-- Message passing: deadlock, msg_send, msg_receive, inform_int and sys_sendrec of kernel/proc.c.
-- A process is named by its pid; `current` and `proc` of the source are the pid of the caller.
pub mod Chain
pub mod Links
pub mod Invariant
pub mod Join
pub mod Enqueue
pub mod Send
pub mod Take
pub mod Dequeue
pub mod Receive
pub mod Inform
pub mod Sendrec
pub mod Deadlock
use bz_os.Prelude.{
  ℕ, zero, suc, ◌+◌, Bool, true, false, not, ◌&&◌, ◌||◌, Option, none, some, Outcome, done, halt,
  panic, spinning, ◌>>=◌, ◌>>◌, assert, panic_if, ltb, ◌==◌, if◌then◌else◌, update,
}
use bz_os.Kernel.State.{
  Process, Kernel, table_size, any, no_task, interrupt, sending, receiving, has, raise, lower,
}
use bz_os.Kernel.Memory.{Memory, phys_copy, memset, store32}
use bz_os.Kernel.Descriptor.{va2la}
use bz_os.Kernel.Schedule.{schedule}

-- sizeof(MESSAGE), and HARD_INT of enum msgtype
abbrev pub message_size : ℕ
message_size = 48

abbrev pub hard_int : ℕ
hard_int = 1

-- Whom a process is sending to.
abbrev pub target : Process → Option ℕ
target p = if has p.flags sending then some p.send_to else none

-- The chains among the processes visit each one at most once: this fuel is enough.
abbrev pub chain_fuel : ℕ
chain_fuel = table_size + 1

-- do{ ... }while(p != proc_table + src): the names of the chain are printed
pub print_chain : ℕ → (ℕ → Process) → ℕ → ℕ → Outcome (Unit {0})
print_chain zero procs src p = halt spinning
print_chain (suc fuel) procs src p =
    let rest = print_chain fuel procs src (procs p).send_to in
    do assert (not ((procs p).p_msg == 0)); if (procs p).send_to == src then done tt else rest

-- The loop of deadlock(src, dest), at p.
pub deadlock_from : ℕ → (ℕ → Process) → ℕ → ℕ → ℕ → Outcome Bool
deadlock_from zero procs src dest p = halt spinning
deadlock_from (suc fuel) procs src dest p =
    let rest = deadlock_from fuel procs src dest (procs p).send_to in
    let found : Outcome Bool = (do print_chain chain_fuel procs src dest; done true) in
    if has (procs p).flags sending
    then (if (procs p).send_to == src then found else rest)
    else done false

pub deadlock : (ℕ → Process) → ℕ → ℕ → Outcome Bool
deadlock procs src dest = deadlock_from chain_fuel procs src dest dest

-- The caller of block has set the flags.
pub block : Kernel → ℕ → Outcome Kernel
block k p = do assert (not ((k.procs p).flags == 0)); schedule 2 k

-- The four assertions that recur: flags and p_msg are 0, recv_from and send_to are NO_TASK.
abbrev pub is_idle : Process → Bool
is_idle p = p.flags == 0 && p.p_msg == 0 && p.recv_from == no_task && p.send_to == no_task

-- (flags & RECEIVING) && (recv_from == from || recv_from == ANY)
abbrev pub awaits : Process → ℕ → Bool
awaits p from = has p.flags receiving && (p.recv_from == from || p.recv_from == any)

-- dest after it has got a message
abbrev pub received : Process → Process
received p = record p { p_msg = 0; flags = lower p.flags receiving; recv_from = no_task }

-- msg_send, dest being ready for the message
pub rendezvous : Kernel → ℕ → ℕ → ℕ → Outcome Kernel
rendezvous k sender dest msg = do
  assert (not ((k.procs dest).p_msg == 0))
  assert (not (msg == 0))
  to ← va2la k dest (k.procs dest).p_msg
  from ← va2la k sender msg
  let procs = update k.procs dest (received (k.procs dest))
  assert ((procs dest).flags == 0)
  assert (is_idle (procs dest))
  assert (is_idle (procs sender))
  done (record k { procs = procs; mem = phys_copy to from message_size k.mem })

-- while(p->next_sending) p = p->next_sending;
pub last_sender : ℕ → (ℕ → Process) → ℕ → Outcome ℕ
last_sender zero procs p = halt spinning
last_sender (suc fuel) procs p = elim (procs p).next_sending [
  | none ↦ done p
  | some n ↦ last_sender fuel procs n
]

-- Append the sender to the sending queue of dest.
pub append_sender : (ℕ → Process) → ℕ → ℕ → Outcome (ℕ → Process)
append_sender procs dest sender = elim (procs dest).q_sending [
  | some p ↦ do
    t ← last_sender chain_fuel procs p
    done (update procs t (record (procs t) { next_sending = some sender }))
  | none ↦ done (update procs dest (record (procs dest) { q_sending = some sender }))
]

-- msg_send, dest not being ready: the sender joins the queue and blocks
pub queue_up : Kernel → ℕ → ℕ → ℕ → Outcome Kernel
queue_up k sender dest msg = do
  let s = k.procs sender
  assert (raise s.flags sending == sending)
  let s' = record s { flags = raise s.flags sending; send_to = dest; p_msg = msg }
  procs ← append_sender (update k.procs sender s') dest sender
  let last = record (procs sender) { next_sending = none }
  k' ← block (record k { procs = update procs sender last }) sender
  assert ((k'.procs sender).flags == sending && not ((k'.procs sender).p_msg == 0))
  assert ((k'.procs sender).recv_from == no_task && (k'.procs sender).send_to == dest)
  done k'

pub msg_send : Kernel → ℕ → ℕ → ℕ → Outcome Kernel
msg_send k sender dest msg = do
  assert (not (sender == dest))
  dead ← deadlock k.procs sender dest
  panic_if dead
  if awaits (k.procs dest) sender then rendezvous k sender dest msg else queue_up k sender dest msg

-- msg_receive, an interrupt being pending: the message is made up by the kernel.
pub take_interrupt : Kernel → ℕ → ℕ → Outcome Kernel
take_interrupt k who m = do
  assert (not (m == 0))
  to ← va2la k who m
  let p = record (k.procs who) { has_int_msg = 0 }
  let blank = memset to 0 message_size k.mem
  assert (p.flags == 0 && p.p_msg == 0 && p.send_to == no_task && p.has_int_msg == 0)
  done (record k {
    procs = update k.procs who p;
    mem = store32 (to + 4) hard_int (store32 to interrupt blank);
  })

abbrev pub not_null : Option ℕ → Bool
not_null none = false
not_null (some p) = true

-- The assertions about the receiver and about the sender, once a message can be taken.
abbrev pub can_take : Process → Bool
can_take p = is_idle p && not_null p.q_sending

abbrev pub can_give : Process → ℕ → Bool
can_give p who =
    p.flags == sending && not (p.p_msg == 0) && p.recv_from == no_task && p.send_to == who

-- The walk along the queue to src: `prev` is the process before it. At the end of the queue the
-- loop stops too.
pub find_prev : ℕ → (ℕ → Process) → ℕ → Option ℕ → Option ℕ → Outcome (Option ℕ)
find_prev zero procs src prev p = halt spinning
find_prev (suc fuel) procs src prev none = done prev
find_prev (suc fuel) procs src prev (some p) =
    let rest = find_prev fuel procs src (some p) (procs p).next_sending in
    do assert (has (procs src).flags sending); if p == src then done prev else rest

abbrev pub points_to : Option ℕ → ℕ → Bool
points_to none p = false
points_to (some h) p = p == h

-- Out of the queue: the head, or a process behind another.
pub unlink_sender : (ℕ → Process) → ℕ → ℕ → Option ℕ → Outcome (ℕ → Process)
unlink_sender procs who from prev = elim (points_to (procs who).q_sending from) [
  | true ↦ elim prev [
    | none ↦ do
      let procs' = update procs who (record (procs who) { q_sending = (procs from).next_sending })
      done (update procs' from (record (procs' from) { next_sending = none }))
    | some _ ↦ assert false >> done procs
  ]
  | false ↦ elim prev [
    | none ↦ assert false >> done procs
    | some p ↦ do
      let procs' = update procs p (record (procs p) { next_sending = (procs from).next_sending })
      done (update procs' from (record (procs' from) { next_sending = none }))
  ]
]

-- the sender after its message has been taken
abbrev pub released : Process → Process
released p = record p { p_msg = 0; send_to = no_task; flags = lower p.flags sending }

-- if(copyok): the message of `from` goes to `who`
pub take_message : Kernel → ℕ → ℕ → Option ℕ → ℕ → Outcome Kernel
take_message k who from prev m = do
  procs ← unlink_sender k.procs who from prev
  assert (not (m == 0))
  assert (not ((procs from).p_msg == 0))
  to ← va2la (record k { procs = procs }) who m
  src ← va2la (record k { procs = procs }) from (procs from).p_msg
  assert ((released (procs from)).flags == 0)
  done (record k {
    procs = update procs from (released (procs from));
    mem = phys_copy to src message_size k.mem;
  })

-- the receiver that finds no message
abbrev pub expecting : Process → ℕ → ℕ → Process
expecting p src m = record p {
  flags = raise p.flags receiving;
  p_msg = m;
  recv_from = if src == any then any else src;
}

-- nobody is sending: the receiver blocks
pub wait_message : Kernel → ℕ → ℕ → ℕ → Outcome Kernel
wait_message k who src m = do
  k' ← block (record k { procs = update k.procs who (expecting (k.procs who) src m) }) who
  let p = k'.procs who
  assert (p.flags == receiving && not (p.p_msg == 0) && not (p.recv_from == no_task))
  assert (p.send_to == no_task && p.has_int_msg == 0)
  done k'

-- src == ANY: the first process of the queue, if there is one
pub receive_any : Kernel → ℕ → ℕ → Outcome Kernel
receive_any k who m = elim (k.procs who).q_sending [
  | none ↦ wait_message k who any m
  | some from ↦ do
    assert (can_take (k.procs who))
    assert (can_give (k.procs from) who)
    take_message k who from none m
]

-- a message from one process: it need not be the first of the queue
pub receive_from : Kernel → ℕ → ℕ → ℕ → Outcome Kernel
receive_from k who src m =
    if has (k.procs src).flags sending && (k.procs src).send_to == who
    then (do
      assert (not_null (k.procs who).q_sending)
      prev ← find_prev chain_fuel k.procs src none (k.procs who).q_sending
      assert (can_take (k.procs who))
      assert (can_give (k.procs src) who)
      take_message k who src prev m)
    else wait_message k who src m

pub msg_receive : Kernel → ℕ → ℕ → ℕ → Outcome Kernel
msg_receive k who src m = do
  assert (not (who == src))
  if not ((k.procs who).has_int_msg == 0) && (src == any || src == interrupt)
      then take_interrupt k who m
      else if src == any
      then receive_any k who m
      else receive_from k who src m

-- The message of a waiting process is written through its virtual address.
pub inform_int : Kernel → ℕ → Outcome Kernel
inform_int k task =
    let p = k.procs task in
    let p' = record p {
      p_msg = 0;
      has_int_msg = 0;
      flags = lower p.flags receiving;
      recv_from = no_task;
    } in
    if has p.flags receiving && (p.recv_from == interrupt || p.recv_from == any)
    then (do
      assert (p'.flags == 0)
      assert (is_idle p')
      done (record k {
        procs = update k.procs task p';
        mem = store32 (p.p_msg + 4) hard_int (store32 p.p_msg interrupt k.mem);
      }))
    else done (record k { procs = update k.procs task (record p { has_int_msg = 1 }) })

-- SEND and RECEIVE
abbrev pub send : ℕ
send = 1

abbrev pub receive : ℕ
receive = 2

pub sys_sendrec : Kernel → ℕ → ℕ → ℕ → ℕ → Outcome Kernel
sys_sendrec k function src_dest msg proc = do
  assert (k.k_reenter == 0)
  assert (ltb src_dest table_size || src_dest == any || src_dest == interrupt)
  mla ← va2la k proc msg
  let k' = record k { mem = store32 mla proc k.mem }
  assert (not (proc == src_dest))
  if function == send
      then msg_send k' proc src_dest msg
      else if function == receive
      then msg_receive k' proc src_dest msg
      else halt panic
