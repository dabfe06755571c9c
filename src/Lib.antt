-- ===== src/Lib.antt =====
-- bzOS: scheduler and message passing of the kernel, the terminal, the file system, the memory manager,
-- and the requests to the hard disk.
--
-- The program. bzOS is a small operating system for the 80386 with a kernel of five tasks (terminal,
-- system, hard disk, file system, memory manager) and user processes. They share nothing but
-- messages: a process calls sendrec, which the kernel serves in sys_sendrec (kernel/proc.c). A
-- message is copied when both sides are ready; else the sender joins the queue of the receiver, or
-- the receiver waits, and the scheduler picks another process. Interrupt handlers wake up a task by
-- inform_int; the clock (kernel/clock.c) counts down the ticks of the running process. The terminal's
-- task reads scan codes from the keyboard's buffer, puts keys into the buffer of a TTY, echoes them on
-- its console and gives lines to the processes that read. The file system keeps a cache of inodes and
-- bit maps on the disk, and serves open, close, read, write and unlink; the disk driver moves its
-- sectors. The memory manager serves fork: a new entry of the process table, a megabyte of memory, and
-- a message to the file system, which counts the shared files.
--
-- The files.
-- Prelude: shared names, Boolean tests, lists, the ℤ of `int` values that are ordered
--   (Prelude/Int), and the outcome of C code (Prelude/Run): a result, or a halt for a failed
--   assertion, a panic, or a loop that used up its fuel.
-- Kernel/State: include/sys/proc.h, const.h, protect.h, global.h. PROCESS is `Process`; the globals
--   and the memory are `Kernel`. A PROCESS* is its pid, a null pointer `none`.
-- Kernel/Memory: memcpy and memset of lib/string.asm and 32-bit stores.
-- Kernel/Descriptor: init_descriptor and seg2linear (kernel/protect.c), ldt_seg_linear and va2la
--   (kernel/proc.c).
-- Kernel/Schedule: schedule (kernel/proc.c); Schedule/Choice is about the process it picks.
-- Kernel/Ipc: deadlock, msg_send, msg_receive, inform_int and sys_sendrec (kernel/proc.c), each
--   branch a definition. Its children: Chain (who waits for whom), Links (the queue as a linked
--   list), Invariant (the well-formed table), Join and Enqueue (a sender at the end of a queue), Take
--   and Dequeue (a sender out of a queue), and one file per operation.
-- Kernel/Clock: clock_handler (kernel/clock.c); Clock/Preempt is about the process that then runs.
-- Kernel/System: the kernel as a step relation, a system call, an interrupt or a tick at a time;
--   System/Calls is about a call, System/Safety about the states that it reaches.
-- Kernel/Boot: the table that init_prot (kernel/protect.c) and kernel_main (kernel/main.c) set up, with
--   the names of kernel/global.c; Boot/Start is about that state as the start of the steps.
-- Terminal/Ring: the buffers of TTY and KB_INPUT; Ring/Queue is about the queue they are.
-- Terminal/Console: kernel/console.c, include/sys/console.h; Console/Bounds, Console/Output and
--   Console/Text are about the part of the video memory that a console writes, and what it shows.
-- Terminal/Tty: kernel/tty.c; Tty/Line is the line editor on lists and how a TTY stands to it,
--   Tty/Turn and Tty/Delivery the loop of tty_dev_write, Tty/Output tty_do_write.
-- Terminal/Keymap, Terminal/Keyboard: include/sys/keyboard.h, include/sys/keymap.h, kernel/keyboard.c
--   and in_process of kernel/tty.c; Keyboard/Letters follows a letter from scan code to TTY.
-- Fs/State: the tables of include/sys/fs.h, RD_SECT and WR_SECT. Fs/Inode: get_inode, put_inode,
--   sync_inode (fs/main.c), new_inode (fs/open.c); Inode/Cache and Inode/Roundtrip are about them.
-- Fs/Map: alloc_imap_bit (fs/open.c); Map/Alloc is about it. Fs/Path: strip_path (fs/misc.c).
-- Fs/MsgType, Fs/Files: the messages, file descriptors and the state of the task (`Server`), and rw_sector
--   (fs/main.c) for several sectors.
-- Fs/Transfer: do_rdwt (fs/read_write.c); Transfer/Bytes is about the bytes of a transfer, Transfer/Grow
--   about the file's size, Transfer/Calls and Transfer/Roundtrip about the calls.
-- Fs/Sectors: alloc_smap_bit (fs/open.c); its children go up from a byte (Bits, Alloc) over the sectors
--   (Sweep) to the whole map (Block).
-- Fs/Directory: search_file (fs/misc.c), new_dir_entry (fs/open.c); Directory/Names is about the
--   comparison of names, Directory/Search about the search. Fs/Open: do_open, create_file,
--   do_close (fs/open.c). Fs/Unlink: do_unlink (fs/link.c); Unlink/Inodes is about the
--   inode map. Fs/Make: mkfs, read_super_block, init_fs (fs/main.c); Make/Root is about the disk that
--   mkfs makes, Make/Start about what init_fs finds there. Fs/Task: fs_fork and a turn of task_fs (fs/main.c).
-- Mm/Memory: alloc_mem (mm/main.c). Mm/Fork: do_fork (mm/forkexit.c); Fork/Copy is about the child and
--   its memory, Fork/Table about the queues of the process table.
-- Hd/Drive: a drive with the commands of include/sys/hd.h and its documented behaviour. Hd/Access:
--   hd_cmd_out and hd_rdwt (kernel/hd.c); Access/Sectors is about the loop over sectors, Access/Request
--   about a request. Hd/Partition: partition tables and the other messages of kernel/hd.c.
-- Library/Text: memcmp, strcmp, strcat (lib/misc.c). Library/Format: vsprintf (lib/printf.c) and itoa
--   (lib/klib.c); Format/Numbers reads the numbers back.
-- Tests modules: runs at concrete tables.
--
-- Numbers. An `int` or `u32` that is only stored and compared is its 32-bit pattern (INTERRUPT is
-- 2^32 - 10); ticks and priority, which the scheduler orders, are ℤ and do not wrap. Memory is a
-- function from linear addresses to bytes, and does not wrap at its end.
--
-- Fuel. schedule runs two rounds at most when a process can run; with none it spins until an
-- interrupt, which the model names `spinning`. The walks along chains and queues get one more than
-- the size of the table; no chain and no queue of a well-formed table is longer. tty_dev_write takes one
-- turn for each key in its buffer, tty_do_write at most one for each byte, the search for a free bit of
-- a byte eight. do_rdwt takes at most one turn for each sector of the transfer, hd_rdwt one for each
-- sector; an int has ten digits.
--
-- Well formed (Kernel/Ipc/Invariant): each pid has a queue of distinct pids, linked from q_sending by
-- next_sending, whose members are just the processes that are sending to it; flags, p_msg,
-- recv_from and send_to of each process agree; native processes have base 0; every chain of waiting
-- senders ends.
-- Sound adds that p_proc_ready is in the table and can run; safe, that the memory before the table,
-- which msg_receive reads for INTERRUPT, does not look like a process that is sending.
--
-- The start. The segments of the GDT, which the loader makes, the end of the kernel's image and what
-- lies before the process table in memory are arguments.
--
-- The devices. Bytes for the ports of the CRT controller are a list, and so are the messages of the
-- terminal's task. The drive behind the ports of kernel/hd.c is a parameter: a state with the operations
-- that the driver uses, and what the ATA documents say of them as hypotheses. For the file system a
-- sector is a function to bytes, read and written at once: what hd_rdwt does for a command of at most
-- 256 sectors. The message to the terminal's driver is an argument of do_open and do_rdwt.
--
-- Not modelled: the registers of a process and the context switch (assembly), the printing of a
-- deadlock (only its assertions), exit_status, the timer and interrupt controllers, the leds of the
-- keyboard, the polling of the drive's status, the endless loops of the tasks around their turns, the
-- task of system calls (kernel/systask.c), sys_printx, and the reading of the kernel's image.
pub mod Prelude
pub mod Kernel
pub mod Library
pub mod Terminal
pub mod Mm
pub mod Fs
pub mod Hd
