-- ===== src/Lib.antt =====
-- Verification of the course programs of this repository: two assignments, each of two programs that
-- talk to one another, and the laboratories.
--
-- The parts and how they interact
--   Assignments/A2 is a logging system over UDP. Each process links Logger.cpp: `Log` formats an entry
--   and sends it, and a receive thread takes "Level=..." commands. LogServer.cpp appends what arrives to
--   /tmp/fileLog, and its menu sends the commands back and shows the file.
--   Assignments/A1 monitors network interfaces over a local stream socket. netMonitor.cpp starts one
--   intfMonitor.cpp for each interface, accepts them, commands them ("Monitor", "Set Link Up", "Shut Down")
--   and hears their replies ("Ready", "Monitoring", "Link down", "Link Up", "Done").
--   Labs/Lab 9/server.cpp collects the messages of at most three clients with `select` and a queue
--   between two threads. Labs/Lab 7/Lab7.cpp joins two commands by a pipe. Labs/Lab 6 is a fixed dialogue
--   of client.cpp and server.cpp. Labs/Lab 5/intfMonitor_solution.cpp logs an interface's counters when a
--   signal tells it to, and sysmonExec.cpp starts two of them and sends the signals. Labs/Lab 8/server.cpp
--   passes messages on between clients of a message queue. Labs/Lab 4/hardwareDevice.c is a kernel module
--   with a thread that changes a buffer. Labs/Lab 3/etherCtrl.cpp shows the addresses of an interface,
--   Labs/Lab 1/LabOne_Watler.cpp and Labs/Lab 2/LabTwo_Watler.cpp report on processes.
--
-- Files and code
--   Base            the shared names: lists and numbers, C strings and `std::string` operations, and
--                   `Outcome`, a value or the way in which C++ leaves without one. Scan is what `cin >> n` and
--                   `stoi` read of a text.
--   Datagrams       `recvfrom` into the 256-byte buffers of Logger.cpp and LogServer.cpp.
--   Logger          Logger.h and Logger.cpp: the globals as a record, `InitializeLog`, `SetLogLevel`, `Log`,
--                   `ExitLog`, a round of `receiveThread`, and runs that interleave them. Filter is about
--                   `Log`, Commands about the text of a command, Rounds and Receiver about the receive
--                   thread, Race about the buffer that both threads use.
--   LogServer       LogServer.cpp: the menu of `main`, `setlevel_log`, `sendlevel_log`, `readlevel_log`,
--                   `shutlevel_log`, `sigHandler` and a round of `receiveThread`. LogFile is about the log
--                   file, Commands and Menu about the menus, Dump about showing the file. Start is
--                   `main` with its socket.
--   Chain           Logger and LogServer together: a datagram of one is the arrival of the other. Session
--                   is about a whole session at the server's menu.
--   Messages        `sendMessage` and `receiveMessage`, which both programs of Assignments/A1 define.
--   IntfMonitor     intfMonitor.cpp: the start of `main`, and its loop as a step function over phases.
--                   Protocol is about the commands, Display about the inner loop, Statistics about the
--                   files, Orphans about a monitor whose server is gone.
--   NetMonitor      netMonitor.cpp: the signal handler and `main` with its accept, command and shutdown
--                   loops (Handshake, Relay, ShutDown), the arguments of its children (Children), and
--                   the whole of `main` with its forks and its socket (Launch).
--   MonitorPair     both programs of Assignments/A1 on a link that is down: Turn and Turns when netMonitor
--                   reads the reports one by one, Loss when it reads two at once, Parting when SIGINT comes
--                   before it has read one.
--   SelectServer    Labs/Lab 9/server.cpp: a pass of `receiver`, a pass of the printing loop, and the end of
--                   `main`. Clients and Reach are about the table and the descriptor sets, Queue about the
--                   queue, Silence about the messages that are read and those that never are, Quit about
--                   the end of `main`.
--   Pipeline        Labs/Lab 7/Lab7.cpp: the splitting of the arguments (Words, Splitting), the
--                   descriptors of the processes (Descriptors), and the pipeline (Joined).
--   PidExchange     Labs/Lab 6/client.cpp and server.cpp as step functions over phases; Dialogue runs both.
--   StatLogger      Labs/Lab 5/intfMonitor_solution.cpp: the signal handler and the loop (Signals), and the
--                   buffers of a pass (Passes).
--   SystemMonitor   Labs/Lab 5/sysmonExec.cpp: `main` as what one process does with what `fork`, `execlp`,
--                   `kill` and `wait` answer. Signalling is about the parent, Forks about a child that is
--                   not replaced and a `fork` that fails, Watched runs StatLogger on the signals.
--   HardwareDevice  Labs/Lab 4/hardwareDevice.c: the thread as a function of where it sleeps, and the
--                   operations of the module and the device. Letters and Reach are about the buffer, Halts
--                   about the two commands, Unload about the thread of a removed module, Reads about `read`.
--   MessageRelay    Labs/Lab 8/server.cpp: the receiving thread and `main` as steps. Forwarding and Order are
--                   about the messages that are passed on, Formats about what `sprintf` makes of their
--                   texts, Quits and Shutdown about the end after SIGINT.
--   EtherCtrl       Labs/Lab 3/etherCtrl.cpp: the reading of `cin`, the choices and the loop. Script and Names are
--                   about a whole session, Menu about the end of the input, Stale about a failing `ioctl`, Mac about
--                   the text of a hardware address.
--   ProcReport      Labs/Lab 1/LabOne_Watler.cpp: the searches in a line (Find), the line with the memory
--                   (Memory), the list (Listing), and the processes without such a line (Stale).
--   PidReport       Labs/Lab 2/LabTwo_Watler.cpp on the functions of pidUtil.h (Reports).
--
-- Conventions
--   A program's state is a record; a function that can leave C++'s defined behaviour, or exit, gives an
--   `Outcome`. What the kernel answers (arriving datagrams and bytes, results of `select`, `accept`,
--   `ioctl`, `fork`, the contents of files, the moment's `ctime`) is an argument. Threads and signals
--   interleave by events: whole calls and whole rounds, except where a module says that it takes a call
--   apart. Numbers are natural numbers; the C `int`s of menus and enumerators are the signed numbers of
--   Base, which are compared and printed; the one sum that wraps, `find("=") + 1` in Logger.cpp, is taken
--   modulo 2 ^ 64. A byte is a number, and texts are lists of bytes.
--
-- Bounds and fuel
--   `LogServer.main_loop` runs on fuel: a session of n levels takes n + 1 passes and the test behind them,
--   and one whose input has ended takes more than any number while no 0 is read. `Pipeline.collect` runs on
--   64 passes: an argument of fewer than 64 characters has fewer words. `EtherCtrl.menu` runs on fuel: a
--   session of n choices takes n + 1 passes, and one whose input has ended takes more than any number. All
--   other loops are structural, or steps.
--
-- Not modelled
--   The set-up of sockets and threads, except for the checks that decide whether a program goes on; the
--   texts of `perror` and `strerror`; sleeping; the memory behind a fault, since a run ends there; the
--   kernel's log, and its count of open files, which keeps a module that is in use from being removed. Two
--   headers are not in the repository: client.h of Labs/Lab 8, whose message type is taken from its uses, and
--   pidUtil.h of Labs/Lab 2, whose functions are a parameter.
pub mod Base
pub mod Datagrams
pub mod Logger
pub mod LogServer
pub mod Chain
pub mod Messages
pub mod IntfMonitor
pub mod NetMonitor
pub mod SelectServer
pub mod Pipeline
pub mod PidExchange
pub mod MonitorPair
pub mod StatLogger
pub mod SystemMonitor
pub mod HardwareDevice
pub mod MessageRelay
pub mod EtherCtrl
pub mod ProcReport
pub mod PidReport
