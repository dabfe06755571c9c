-- ===== src/Fs/Open.antt =====
-- Opening and closing files: do_open, create_file and do_close of fs/open.c. The name's length is not
-- negative.
use bz_os.Prelude.{
  ℕ, zero, suc, ◌+◌, ◌/◌, ◌%◌, List, [], ◌∷◌, Option, none, some, Outcome, done, halt, panic,
  assert, ◌>>=◌, ◌>>◌, leb, ◌==◌, if◌then◌else◌, update,
}
use bz_os.Kernel.State.{Process, task_tty}
use bz_os.Kernel.Descriptor.{va2la}
use bz_os.Fs.State.{Fs, Inode}
use bz_os.Fs.Inode.{get_inode, put_inode, new_inode, i_regular, nr_default_file_sects}
use bz_os.Fs.Map.{alloc_imap_bit}
use bz_os.Fs.Sectors.{alloc_smap_bit}
use bz_os.Fs.Path.{strip_path}
use bz_os.Fs.Directory.{search_file, new_dir_entry}
use bz_os.Fs.MsgType
use bz_os.Fs.Files.{
  Message, FileDesc, Server, Driver, nr_files, nr_file_desc, max_path, o_creat, o_rdwr, imode,
  i_directory, i_char_special, root_inode_nr, major, minor,
}

-- the C string in the n bytes from the address a on, which a NUL follows
unfoldable pub c_string : ℕ → ℕ → (ℕ → ℕ) → List ℕ
c_string zero a mem = []
c_string (suc n) a mem =
    let rest = c_string n (a + 1) mem in if mem a == 0 then [] else mem a ∷ rest

-- the n slots of filp[] from i on
unfoldable pub free_filp : ℕ → ℕ → (ℕ → Option ℕ) → Option ℕ
free_filp zero i filp = none
free_filp (suc n) i filp =
    let rest = free_filp n (i + 1) filp in elim (filp i) [ none ↦ some i | some d ↦ rest ]

-- the n slots of f_desc_table[] from i on
unfoldable pub free_desc : ℕ → ℕ → (ℕ → FileDesc) → Option ℕ
free_desc zero i table = none
free_desc (suc n) i table =
    let rest = free_desc n (i + 1) table in
    elim ((table i).fd_inode) [ none ↦ some i | some p ↦ rest ]

-- a slot that is there, or a panic
abbrev pub or_panic : Option ℕ → Outcome ℕ
or_panic none = halt panic
or_panic (some i) = done i

-- The inode of the new file, or `none` for a null pointer.
unfoldable pub create_file : Fs → ℕ → List ℕ → Outcome (Option ℕ × Fs)
create_file s root path = elim (strip_path (some path)) [
  | none ↦ done (none, s)
  | some filename ↦ do
    let dev = (s.inode_table root).i_dev
    a ← alloc_imap_bit s dev
    b ← alloc_smap_bit (a.1) dev nr_default_file_sects
    n ← new_inode (b.1) dev (a.0) (b.0)
    s' ← new_dir_entry (n.1) root ((n.1).inode_table n.0).i_num filename
    done (some (n.0), s')
]

-- The inode of a file that is opened, or `none` for the result -1 (a file to be created that exists,
-- or a null pointer).
unfoldable pub open_inode : Fs → ℕ → ℕ → List ℕ → Outcome (Option ℕ × Fs)
open_inode s root flags path =
    let (inode_nr, s1) = search_file s root path in
    if flags / o_creat % 2 == 1
    then (if inode_nr == 0 then create_file s1 root path else done (none, s1))
    else (do
      assert (flags / o_rdwr % 2 == 1)
      elim (strip_path (some path)) [
        | none ↦ done (none, s1)
        | some filename ↦ get_inode s1 (s1.inode_table root).i_dev inode_nr
      ])

-- the process, the descriptor and the inode are connected
abbrev pub connected : Server → ℕ → ℕ → ℕ → ℕ → ℕ → Server
connected st src fd i p flags =
    let caller : Process = st.kernel.procs src in
    record st {
      kernel = record (st.kernel) {
        procs =
            update st.kernel.procs src (record caller { filp = update caller.filp fd (some i) });
      };
      f_desc_table =
          update st.f_desc_table i
            (record { fd_mode = flags; fd_pos = 0; fd_cnt = 1; fd_inode = some p });
    }

-- what the kind of the file asks for: a message to the terminal's task, or an assertion
unfoldable pub open_kind : Driver → Server → Message → ℕ → Outcome Server
open_kind driver st msg p =
    let pin : Inode = st.fs.inode_table p in
    if imode pin.i_mode == i_char_special
    then (do
      assert (major pin.i_start_sect == 4)
      r ← driver task_tty (record msg { type = MsgType.dev_open; m3i4 = minor pin.i_start_sect }) st
      done (r.1))
    else if imode pin.i_mode == i_directory
    then (do assert (pin.i_num == root_inode_nr); done st)
    else (do assert (pin.i_mode == i_regular); done st)

-- The descriptor, or `none` for -1. The message to the driver is a new one: its other fields are not
-- set in the code, and here those of fs_msg.
unfoldable pub do_open : Driver → Server → Message → Outcome (Option ℕ × Server)
do_open driver st msg = do
  assert (leb msg.m3i2 max_path)
  la ← va2la st.kernel msg.source msg.m3p1
  let pathname = c_string msg.m3i2 la st.kernel.mem
  fd ← or_panic (free_filp nr_files 0 (st.kernel.procs msg.source).filp)
  i ← or_panic (free_desc nr_file_desc 0 st.f_desc_table)
  r ← open_inode st.fs st.root_inode msg.m3i1 pathname
  let st1 = record st { fs = r.1 }
  elim (r.0) [
    | none ↦ done (none, st1)
    | some p ↦ do
      st2 ← open_kind driver (connected st1 msg.source fd i p msg.m3i1) msg p
      done (some fd, st2)
  ]

-- the descriptor and its inode; the code follows a null pointer, where the model halts
abbrev pub close_desc : Server → Message → ℕ → Option ℕ → Outcome Server
close_desc st msg d none = halt panic
close_desc st msg d (some p) = do
  s ← put_inode st.fs p
  let caller = st.kernel.procs msg.source
  done (record st {
    fs = s;
    f_desc_table = update st.f_desc_table d (record (st.f_desc_table d) { fd_inode = none });
    kernel = record (st.kernel) {
      procs =
          update st.kernel.procs msg.source
            (record caller { filp = update caller.filp msg.m3i1 none });
    };
  })

abbrev pub close_fd : Server → Message → Option ℕ → Outcome Server
close_fd st msg none = halt panic
close_fd st msg (some d) = close_desc st msg d (st.f_desc_table d).fd_inode

unfoldable pub do_close : Server → Message → Outcome Server
do_close st msg = close_fd st msg ((st.kernel.procs msg.source).filp msg.m3i1)
