-- ===== src/Fs/Task.antt =====
-- The task of the file system: the messages that task_fs of fs/main.c serves, and fs_fork.
use bz_os.Prelude.{
  ℕ, zero, suc, ◌+◌, ◌-◌, Option, none, some, Outcome, done, halt, panic, assertion, ◌>>=◌, ◌==◌,
  if◌then◌else◌, update, ◌||◌, ◌^◌,
}
use bz_os.Fs.MsgType
use bz_os.Fs.Files.{Message, Server, Driver, nr_files}
use bz_os.Fs.Open.{do_open, do_close}
use bz_os.Fs.Transfer.{do_rdwt}
use bz_os.Fs.Unlink.{do_unlink}

-- a descriptor that the child shares, and its inode; a null pointer is followed, where the model halts
abbrev pub share_desc : Server → ℕ → Option ℕ → Outcome Server
share_desc st d none = halt panic
share_desc st d (some p) = done (record st {
  f_desc_table =
      update st.f_desc_table d
        (record (st.f_desc_table d) { fd_cnt = (st.f_desc_table d).fd_cnt + 1 });
  fs = record (st.fs) {
    inode_table =
        update st.fs.inode_table p
          (record (st.fs.inode_table p) { i_cnt = (st.fs.inode_table p).i_cnt + 1 });
  };
})

abbrev pub share : Server → Option ℕ → Outcome Server
share st none = done st
share st (some d) = share_desc st d (st.f_desc_table d).fd_inode

-- the n slots of filp[] from i on
unfoldable pub share_files : ℕ → ℕ → (ℕ → Option ℕ) → Server → Outcome Server
share_files zero i filp st = done st
share_files (suc n) i filp st = do st1 ← share st (filp i); share_files n (i + 1) filp st1

unfoldable pub fs_fork : Server → Message → Outcome Server
fs_fork st msg = share_files nr_files 0 (st.kernel.procs msg.m3i2).filp st

-- -1, or a count or descriptor
abbrev pub result : Option ℕ → ℕ
result none = 2 ^ 32 - 1
result (some n) = n

-- What one of the calls leaves for the reply.
pub record Served : Type 0 where
  pub to : ℕ
  pub reply : Message
  pub server : Server

-- the switch; RESUME_PROC is passed on to the process that it names
unfoldable pub dispatch : Driver → Server → Message → Outcome Served
dispatch driver st msg =
    if msg.type == MsgType.open_file
    then (do
      r ← do_open driver st msg
      done (record { to = msg.source; reply = record msg { m3i1 = result (r.0) }; server = r.1 }))
    else if msg.type == MsgType.close_file
    then (do
      st1 ← do_close st msg
      done (record { to = msg.source; reply = record msg { m3i1 = 0 }; server = st1 }))
    else if msg.type == MsgType.read || msg.type == MsgType.write
    then (do
      r ← do_rdwt driver st msg
      done (record { to = msg.source; reply = record msg { m3i2 = result (r.0) }; server = r.1 }))
    else if msg.type == MsgType.unlink
    then (do
      r ← do_unlink st msg
      done (record {
        to = msg.source;
        reply = record msg { m3i1 = if r.0 then 0 else 2 ^ 32 - 1 };
        server = r.1;
      }))
    else if msg.type == MsgType.resume_proc
    then done (record { to = msg.m3i3; reply = msg; server = st })
    else if msg.type == MsgType.fork
    then (do
      st1 ← fs_fork st msg
      done (record { to = msg.source; reply = record msg { m3i1 = 0 }; server = st1 }))
    else halt assertion

-- One turn of task_fs for a message: the reply and to whom, or none after SUSPEND_PROC; the fields of a
-- device's answer other than its type and count are left out of the reply.
unfoldable pub serve : Driver → Server → Message → Outcome (Option (ℕ × Message) × Server)
serve driver st msg = do
  r ← dispatch driver (record st { fs_type = msg.type }) msg
  if r.server.fs_type == MsgType.suspend_proc
      then done (none, r.server)
      else done (some (r.to, record (r.reply) { type = MsgType.syscall_ret }), r.server)
