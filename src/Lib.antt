-- ===== src/Lib.antt =====
-- Verification library of Sistemi_Operativi, a collection of C programs on operating systems:
-- worked examples, tutoring exercises and practical exams. The programs do not call each other. Each
-- one that is modelled is a component with a module of its own.
--
-- The programs and their modules:
-- - MiniTar: `SO esempi/4_VIRTUAL-FILE-SYSTEM/UNIX/mini-tar/` with mini-tar.h, mini-tar.c (`mini_tar`)
--   and extract.c (`extract`). A struct `header` is the record Header, its three arrays are functions
--   of the index. The archive file is the header and the bytes behind it; the positions in the header
--   are machine integers of 32 bits, as `to_int` wraps them. What the file system answers (Env: which
--   paths can be opened, and with which bytes; whether the archive can be created) and how a header is
--   laid out in the file (`image`, of `header_size` bytes) are parameters. mini-tar writes an archive
--   that extract reads: RoundTrip joins the two.
-- - Stripe: `Esami pratici/prova-pratica-19-9-2018/prog.c`, the WinAPI program. `main_step` is a step of
--   the loop of `main`, `thread_step` one of `theThread`. The state System
--   holds the global arrays; a step is what a thread does between two calls that can wait. These threads
--   meet only in the semaphores and in `the_buffer`. `handler_step` is a step of `theHandler`, which the
--   system runs in one more thread (Watched), between any steps of the others; a call of `WriteFile`,
--   `ReadFile` or `SetFilePointer` is one step, and one event is handled at a time. Phases, Moves,
--   Protocol and Turns are about the semaphores, Layout and Grown about the files, Handler and Ends
--   about CTRL+C.
-- - SlotRing: `SO esempi/7_SYNCHRONIZATION/UNIX/semaphores/semaphore-producer-consumer.c` and, in
--   Copy, `Altro/sem_producer_consumer/p-c.c`.
--   `producer_step`, `consumer_step` and `main_step` are the three processes, System the shared array
--   and the two System V semaphore sets, which `main` removes at its end. SIZE and END are parameters.
-- - Segments: `Esami pratici/prova-pratica-18-7-2018/prog-A-solution.c`. `child_function` of a number of
--   rounds is a child with its mapped segment, `handler` is what the parent does on SIGINT, and
--   `parent_passes` its wait with `semop` for all children.
-- - Dispatch: `Esami pratici/prova-pratica-26-6-2018/prog-A-solution.c`, and the handler of its draft
--   `Esami pratici/exam1_A.c`. `main_step` and `worker_step` are the threads, which hand two mutexes to
--   each other; `printer` and `stampa_list` are the handlers. A list is the head record with the values
--   of the records behind it, since no record is shared or changed once it is linked. A mutex can be
--   unlocked by another thread than its owner, as the program relies on.
-- - Broadcast: `Esami pratici/prova-pratica-18-7-2018/prog-B-solution.c`. `main_step` and `worker_step` are
--   the threads, `interrupt` is a signal that makes a worker's call fail with EINTR. `buffer` is the
--   string in the array up to its NUL; a string of 128 bytes or more is written behind the array and
--   ends the run (`m_fault`).
-- - Readers: `SO esempi/7_SYNCHRONIZATION/UNIX/readers-writers-synchronization/`, with the program
--   readers-writers-syncronization.c in the build without SINGLE_LOCK. `producer_step` and `consumer_step`
--   are the processes, up to the removal of the semaphores by their parent. What the kernel gives back
--   when a consumer exits (SEM_UNDO) is kept per consumer. NUM_READERS, SIZE and END are parameters.
-- - GateRing: the programs of `SO esempi/7_SYNCHRONIZATION/` that are the ring of SlotRing with
--   something else to wait at: in `UNIX/`, posix-unnamed-semaphore-producer-consumer.c (GateRing itself),
--   posix-named-semaphore-producer-consumer.c (Named), pthread-mutex-producer-consumer-V1.c (Mutex) and
--   synchronized-producer-consumer-V1.c (Spin), and in `WINDOWS/`, semaphores/
--   synchronized-producer-consumer.c (WinSemaphore). What a thread waits at is an interface, Gate, with
--   its laws in IsLawful, which each of the programs fills; `ring` is the state of SlotRing that a state
--   stands for.
-- - Relay: `Esami pratici/prova-pratica-7-9-2018/prog-solution.c`. `parent_step` and `child_step` are the
--   threads of the two processes, which share a segment and two semaphores for each pair (a Channel).
--   Spec is what the program is for: channels with one place each between the input and the file;
--   `places` is the state of it that a state of the program stands for.
-- - LockedRing: the programs of `SO esempi/7_SYNCHRONIZATION/UNIX/` with a counter under one lock:
--   pthread-mutex-producer-consumer.c (LockedRing itself), pthread-spinlocks-producer-consumer.c
--   (PthreadSpin) and synchronized-producer-consumer.c (AsmSpin), and `WINDOWS/spinlocks/`
--   win-spinlock-producer-consumer.c (BitSpin). The lock is a gate, as in GateRing.
-- - Collector: `Esami pratici/prova-pratica-26-6-2018/prog-B-solution.c`. `child_step` is `run`, and
--   `parent_step` the loop of `main`. What the kernel keeps for SEM_UNDO is part of the state; how much
--   of it the kernel can keep is the parameter `limit`, taken to be the same for waits and for posts,
--   and beyond it `semop` fails with ERANGE. `content` is the file: the text of the numbers over what it
--   held before, since it is opened without O_TRUNC; how `fprintf` writes a number is a parameter. A
--   wait for a semaphore that is 0 waits all the same.
-- - Echo: `SO esempi/9_SOCKETS/UNIX/sockets/eServ1T_TCP/` with helper.c (`readline`, `writeline`),
--   tcpServer.c (`serve`, one connection in the loop of `main`) and tcpClient.c (`client_send`,
--   `client_receive`). What `read` and `write` answer is a list of answers, any list; an answer to
--   `write` takes at least one byte. Behind the last answer to `read` the peer has closed the
--   connection. The signal SIGPIPE, which ends a program that writes to a closed connection, is not
--   modelled.
-- - Pages: `Tutoraggio SO/Tutoraggio 9/esercizio2(UNIX).c` and, in Windows, `esercizio2(WIN).cpp`.
--   `request` and `free` are the two operations of `main` on the bitmap, `round` is one round of its loop.
--   `mprotect` is a parameter, and so are N_PAGES and the size of a page. A call of it that
--   succeeds sets the access of its pages, and no call touches the others (IsLawful); one that fails may
--   have changed some of its pages, which `torn` marks.
-- - Shell: `Tutoraggio SO/Tutoraggio 8/esempio2(shell-pipe)(UNIX).c` and, in Copy,
--   `SO esempi/5_PIPES-MESSAGES/UNIX/shell-with-pipes/shellpipe-unix.c`. A line is cut by
--   `count_args` and `build_arg_vector`, which model what `strtok` makes of the array; `stages` is the
--   loop of `main` around them, with the length of the line as fuel: each round takes a bar from it.
--   Shell/Wires is the same loop with the descriptors: a process has a table of them, `pipe` and `dup`
--   take the lowest free ones, and a child starts with the table that its parent had at `fork`. What
--   `fork` returns is a parameter. Words, Lines and Parse are about the bytes, Pipeline and Session
--   about the processes, Leaks about `fork` failing, Glued and Stale about bars without spaces. A session is
--   the bytes typed, which `fgets` cuts into lines of at most 1023 bytes, with a number of lines as fuel.
--   What the programs started do is not modelled, nor the line that stays in the array at the end of the
--   input. Windows is `SO esempi/5_PIPES-MESSAGES/WINDOWS/shell-with-pipes/shell-pipe.c`, which takes a
--   line apart as the others do: its state has the standard handles and the pipe that is pending, the
--   array of the processes' handles has 64 places, as MAXIMUM_WAIT_OBJECTS says, and what
--   `CreateProcess` returns is a parameter; Joined is about its processes.
-- - Bulletin: `Tutoraggio SO/Tutoraggio 11/exercise4(UNIX).c`. A step is one semop, one `printf`, one
--   `scanf` or one `kill` of `main`; N_READER and N_STEP are parameters, and the lines of the input
--   a list. A state is reached in a number of steps. Tokens has the invariant, Steps and Writer keep
--   it, Measure counts the steps that are left, Progress finds a process that can go on, Turns and
--   Twice have the run of a reader that is faster than another. The set-up calls and their
--   failures are not modelled, nor is a line that does not fit into the segment.
-- - Prelude: lists, families, machine integers and strings that the components share.
--
-- Interleavings: a thread or process has a program counter, a step is a function into Option (`none`
-- where the call waits), and the reachable states are an inductive relation over such steps. Invariants
-- are proved by induction on it.
--
-- System calls are given by what their documentation says and the programs use of it: a semaphore that
-- is 0 makes the caller wait; `ReleaseSemaphore` beyond the maximum leaves the count alone; `semop` on a
-- removed set fails; `read` at the end of a file delivers nothing; `lseek` to a negative offset fails;
-- `getchar` at the end of the input delivers EOF; `fscanf` with `%s` skips white space of the C locale;
-- `exit` undoes the operations with SEM_UNDO, down to 0 at most.
-- Reads and writes of files are complete, so that a short count is met only at the end of a file.
--
-- Bounds and fuel: the copy loop of mini-tar has the length of the source plus one as fuel, and every
-- round but the last takes a byte at least. The shell takes the number of lines from the caller. The walk
-- of Segments has the size of the segment as fuel, which no number of words in it reaches.
-- MAX_MANAGEABLE_FILES is 128 and a segment has 4096 bytes, as in the sources; numbers that no program
-- lets overflow are natural numbers.
--
-- Not modelled: what the programs print as messages, the failures of set-up calls that end a program
-- before its work begins, and the other programs of the repository: demonstrations of single system
-- calls, drafts of the exams, and the other exercises of the tutoring lessons.
pub mod Prelude
pub mod MiniTar
pub mod Stripe
pub mod SlotRing
pub mod Segments
pub mod Dispatch
pub mod Broadcast
pub mod Readers
pub mod GateRing
pub mod Relay
pub mod LockedRing
pub mod Echo
pub mod Collector
pub mod Pages
pub mod Shell
pub mod Bulletin
