-- ===== src/Lib.antt =====
-- Verification of solutions to the exercises of "The Linux Programming Interface": the parts of the
-- repository that keep state or move data, each translated function by function, with the theorems
-- that say what it does. The repository holds small programs (src/imp) over a few shared files
-- (src/lib, include/tlpiexer); a program calls its shared files directly, and nothing else is shared.
--
-- Files and what they model:
--   Prelude        lists and Boolean tests over the native numbers, C's `int` as ℤ, and `Run`, how a
--                  call ends: with a value, in undefined behaviour, or out of the model's fuel
--   CText          char arrays: `strncmp`, `strcmp`, `strcpy`, `strncpy`
--   DList          doubly linked nodes on a heap, as src/lib/59-04-llist.c and src/imp/30-02.c link
--                  them: what a chain of nodes stands for, and how each surgery changes it
--   NameStore      src/lib/59-04-llist.c and include/tlpiexer/59-04-llist.h (`ll_init`, `ll_free`,
--                  `ll_add`, `ll_get`, `ll_set`, `ll_del`); NameStore/Spec is the abstract list that
--                  Refine, Update and Remove relate it to; NameStore/Server is the loop of
--                  src/imp/59-04-server.c over it, which Round, Session and Reached relate to the
--                  abstract list; NameStore/Client is src/imp/59-04-client.c, which NameStore/Talk
--                  and NameStore/Shown put together with the server
--   KeyList        src/imp/30-02.c (`tree_init`, `tree_add`, `tree_del`, `tree_look`) with its mutex;
--                  KeyList/Spec is the abstract list
--   Once           `one_time_init` of src/imp/31-01.c, called by any number of threads
--   PingPong       the two threads of src/imp/53-01.c
--   Sockets        `isock_connect`, `isock_listen`, `isock_bind` (src/lib/59-04-isock.c),
--                  `usock_connect`, `usock_listen` (src/lib/59-03.c), `pipe_x` (src/lib/61-02.c): which
--                  descriptors are open on every branch
--   Copy           `sendfile_x` (src/lib/61-03.c), `main` of src/imp/04-02.c (cp) and of src/imp/04-01.c
--                  (tee), `readv` and `writev` (src/imp/05-07.c)
--   Environ        `setenv` and `unsetenv` of src/imp/06-03.c
--   Tail           `showline` of src/imp/13-5.c (tail)
--   LineBuf        `init_lbuf` and `read_lbuf` (src/lib/59-01.c), with a buffer of any size
--   RealPath       `solve_dot` and `realpath_x` of src/imp/18-03.c
--   FileWalk       `nftw` and `fwalk` of src/imp/18-08.c
--   Numbered       `gennum`, `sorti` and `main` of src/imp/14-01.c
--   Attributes     `pattr` and `main` of src/imp/15-07.c (chattr)
--   Chat           the two roles of src/imp/52-04.c, a chat on message queues
--   Execlp         `execlp` of src/imp/27-02.c
--   Signals        `setup_stdsignal` and `raise_stdsignal` of src/imp/22-02.c
--   Random         `rrand` (src/lib/random.c) and `mk_key` (src/lib/61-06.c)
--   Status         `uidfname`, `isnumber`, `verifyproc` and the scans of /proc/PID/status of
--                  src/imp/12-01.c
--   OpenFiles      `main`, `fdfproc` and `pnamefstatus` of src/imp/12-03.c
--   ProcTree       `main`, `parseproc` and `ptree` of src/imp/12-02.c
-- The modules named Tests run the definitions on small inputs and apply each theorem to one.
--
-- State and operations: an operation takes its state and returns it; a pointer is a number, NULL is 0,
-- and a heap gives the node at an address or nothing. Reading or writing where there is no node is
-- `fault`, and so is a `strcpy` without an end. Threads take turns of one call or one access each, and
-- a theorem about them holds for every list of turns.
--
-- The system's calls (malloc, socket, read, write, lseek, getaddrinfo and so on) are not modelled: what
-- they answer is an argument of the definitions that use them, so a theorem holds for every answer
-- that its conditions allow. Their conditions are documented behaviour: malloc gives NULL or an address
-- that is not in use, connect fails on the descriptor -1, lseek with SEEK_SET gives its offset.
--
-- Fuel: a walk over a list is given one round more than there are elements, a loop that copies or scans
-- one more than there are bytes, and the walk down a tree of processes one more than the numbers there
-- are above its root: each round goes at least one element, byte or number further. The loop over links
-- in `realpath_x` has no limit in the source; it needs one round more than there are links. `fwalk`
-- needs no fuel, since the source counts the levels itself. The loop of `raise_stdsignal` ends when the
-- results of rand have given each number.
--
-- Not modelled: printing, the parsing of options but for tee, signal handlers, and the programs that
-- only show one call of the system; tlpi/ is a copy of the book's own sources.
pub mod Prelude
pub mod CText
pub mod DList
pub mod NameStore
pub mod KeyList
pub mod Once
pub mod PingPong
pub mod Sockets
pub mod Copy
pub mod Environ
pub mod Tail
pub mod Random
pub mod Status
pub mod ProcTree
pub mod LineBuf
pub mod FileWalk
pub mod RealPath
pub mod Numbered
pub mod Attributes
pub mod Chat
pub mod Execlp
pub mod Signals
pub mod OpenFiles
