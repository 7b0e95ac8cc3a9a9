-- ===== src/Lib.antt =====
-- Models of the parts of the TLPI programs that have logic of their own, and proofs about them.
-- The programs talk to the kernel only by system calls; each part has its own model of those.
--
-- Io (sockets/): `readn` and `writen` of TLPI/sockets/rdwrn.c are Io/Rdwrn, `readLine` and
-- `readLineBuf` of read_line.c and read_line_buf.c are Io/Line. Io/Posix has read(2) and
-- write(2): a stream carries the bytes still to come and a list of turns, one for each call,
-- that transfer a part, are interrupted or fail. Each loop takes a turn or a byte per round,
-- which is its fuel; the theorems say that it suffices.
--
-- Environ (proc/): `unsetenv` and `setenv` of TLPI/proc/setenv.c over the list `environ`;
-- Environ/Entries has getenv(3) and putenv(3) as documented, and Environ/Laws the theorems. The
-- loop takes an element per round.
--
-- Sems (svsem/): the calls of TLPI/svsem/binary_sems.c and event_flags.c on one semaphore; a
-- call gets the turns of semop(2), and Sems/Mutex lets any number of processes interleave the
-- calls.
--
-- Xfr (svshm/, svsem/): the programs TLPI/svshm/svshm_xfr_writer.c and svshm_xfr_reader.c as two
-- processes that step in any order over the semaphores of TLPI/svsem/binary_sems.c and one
-- segment. Xfr/Lock says where the two can stand, Xfr/Invariant what the data are, Xfr/Safety and
-- Xfr/Steps what follows. The counters of both programs are kept on 32 bits. A process whose call
-- fails ends and takes no further step.
--
-- Numbers (lib/): `getNum`, `getLong` and `getInt` of TLPI/lib/get_num.c; Numbers/Strtol is
-- strtol(3). Timer (timers/): `itimerspecFromStr` of TLPI/timers/itimerspec_from_str.c. Accounts
-- (ch08-users_groups/): `userIdFromName` and `groupIdFromName` of ugid_functions.c, with the
-- databases of names as parameters.
--
-- Acl (acl/): `parseEntrySpec` and `parseACL` of TLPI/acl/acl_update.c; Acl/Perms has the
-- permissions, Acl/Laws one entry and Acl/Spec a whole specification. Acl/Update is `findEntry`,
-- `setPerms` and `main`, over a record of the calls of the ACL library, of which Acl/Update/Laws
-- assumes what its manual says.
--
-- Seqnum (pipes/): the loop of TLPI/pipes/fifo_seqnum_server.c over the outcomes of its system
-- calls, with its counter on 32 bits.
--
-- SeqnumTcp (sockets/): the loop that TLPI/sockets/is_seqnum_sv.c and is_seqnum_v2_sv.c share,
-- over `readLine` of Io and atoi(3) of Timer; SeqnumTcp/Order is about all clients, SeqnumTcp/Laws
-- about those that send what is_seqnum_cl.c sends. Inet (sockets/): TLPI/sockets/inet_sockets.c
-- over the list of addresses that getaddrinfo(3) gives, each with the outcomes of its calls, and
-- the table of open descriptors.
--
-- Svmsg (svmsg/): `serveRequest` of TLPI/svmsg/svmsg_file_server.c and the client
-- svmsg_file_client.c, which counts what is in its queue. A round of the loop takes a byte or a
-- turn.
--
-- Execlp (ch24-procexec/): TLPI/ch24-procexec/execlp.c, with execve(2) as a parameter and every
-- array with its size. Execlp/Argv is about the arrays, Execlp/Search about the directories of
-- PATH, each of which takes a round of the loop.
--
-- System (ch24-procexec/): `fine_system` of TLPI/ch24-procexec/system.cpp over a process with an
-- action for every signal, a mask and `errno`; the outcomes of waitpid(2) are a list.
--
-- Multijoin and Condvar (ch29-threads/): thread_multijoin.cpp and prod_condvar.cpp as step
-- relations: threads in any number, the mutex, and the condition variable as the one sleeper that
-- a signal wakes, or nothing: a run may wake it up without a signal. The steps are those between
-- which another thread can act; the creation of the threads is part of the run. ChangeCase
-- (pipes/): TLPI/pipes/change_case.c in the same way, with two processes and two pipes.
--
-- Semop (svsem/): `parseOps` and `main` of TLPI/svsem/svsem_op.c. The loop counts its operations
-- up to MAX_SEMOPS, which is its fuel. GoodInit (svsem/): TLPI/svsem/svsem_good_init.c, any number
-- of whose processes make and initialise one semaphore, as a step relation.
--
-- Dtree (inotify/): the program TLPI/inotify/inotify_dtree.c, which keeps a cache of watched
-- directories in step with a file system. Dtree/Cache is the array `wlCache` with its searches
-- and rewriting, Dtree/Roots the directories of the command line, Dtree/Watch the functions that
-- add and remove watches, Dtree/Event `processNextInotifyEvent`, Dtree/Reader
-- `processInotifyEvents`, Dtree/Command `executeCommand` and Dtree/Program `main`. The global
-- variables are the record `State` of Dtree/Kernel, the ends of a function (return, exit, abort,
-- a read of an uninitialised variable) are `Outcome`, and the kernel with nftw(3) is a
-- parameter, of which the theorems assume only what they state. Dtree/Stable is the interface of
-- an invariant: the operations that have to keep it; the events, the buffers, the commands and
-- the reachable states then keep it too. The read loop runs on fuel: each round consumes an
-- event or makes the one attempt to read more. Pathnames are cut where `snprintf` and `strncpy`
-- cut them.
--
-- Common has the shared types and lemmas: Boolean tests on numbers, lists, byte strings, signed
-- integers and `loop` with the rule that proves a loop total and correct. Positions, lengths of
-- lists and fuel are unbounded numbers; where a value comes from outside, as a length or a numeral
-- does, or is a counter of Xfr, Svmsg or Condvar, its width is written out, with the wrap-around
-- or the overflow.
--
-- Not modelled: output to the terminal and to logs, the parsing of options, the demonstration
-- programs that make one system call and print its result, Go programs and shell scripts.
pub mod Common
pub mod Io
pub mod Environ
pub mod Sems
pub mod Xfr
pub mod Numbers
pub mod Timer
pub mod Accounts
pub mod Acl
pub mod Seqnum
pub mod SeqnumTcp
pub mod Svmsg
pub mod Inet
pub mod Execlp
pub mod System
pub mod Multijoin
pub mod Condvar
pub mod Semop
pub mod GoodInit
pub mod ChangeCase
pub mod Dtree
