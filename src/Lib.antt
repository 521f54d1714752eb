-- ===== src/Lib.antt =====
-- The programs of the repository's linux_programing_interface folder: solved exercises and sample
-- programs of the book "The Linux Programming Interface". Each program stands alone, so each has a
-- module of its own here; they share the model of C strings. P stands for
-- linux_programing_interface/practice and R for linux_programing_interface/routines.
--
--   CString         a C array as a list of bytes; strlen, strcmp, strncpy as the C standard has them
--   Talk            P/46.6/talk_server.c and talk_common.h, a server that passes messages on between
--                   registered clients. Talk.Table: the array pCi and the loops over it. Talk.Server:
--                   the three cases of main's switch (register, delete, talk), the switch (handle) and
--                   the loop (serve). Talk.Process: main up to its loop, and onExit.
--                   Talk.Client: the start of P/46.6/talk_client.c (client_main) and its onExit.
--                   Talk.Prompting: its two loops (send_loop, and receive_loop of the child).
--                   Talk.Slots, Directory, Loop, Session, Greeting and Delivery: lemmas and theorems
--   Paths           P/31.2/main.c: judgePath (judge_path), myDirname (my_dirname), myBasename
--                   (my_basename) in Paths.Defs; the buffers of their threads behind the keys dirKey
--                   and baseKey (own_buffer, call) in Paths.Keys
--   Copier          P/53.1/main.c: the loops of main (main_step) and thread_write (writer_step), which
--                   hand one buffer over by two semaphores, as steps in any order
--   Transfer        P/52.2: msgHandler (msg_handler) and the loop of file_client.c (receive), in
--                   Transfer.Posix; main and SIGHILD_Handler of file_server.c (start_server,
--                   take_request, hand_on, step) as steps in any order in Transfer.Mqueue; the
--                   request that file_client.c fills (fill_request) in Transfer.Requesting. P/46.4:
--                   serverRequest (server_request) and main of svmsg_file_client.c (client), in
--                   Transfer.Sysv; its start (ask) in Transfer.Asking; the server and its
--                   children (Transfer.Service, with theorems in Transfer.Ending). Transfer.Chunks: what read
--                   returns
--   Svmsg           R/46.7.svmsg: main and SIGCHILD_Hanler of svmsg_file_server.c as steps in any
--                   order (Svmsg.Server), its children and main of svmsg_file_client.c
--                   (Svmsg.Client), by the functions of Transfer where the code is that of P/46.4
--   Password        R/8.2.check_password/check_password.c: main (check_password), in Password.Defs
--   Once            P/31.1/main.c: one_time_init (call_step), in Once.Defs
--   Mount           R/14.4.t_mount/t_mount.c: main (t_mount), in Mount.Defs
--   Delay           P/35.3/main.c: delay3s and main, in Delay.Defs
--   Runs            runs that take a step at each move, schedules, their invariants, and the bound
--                   that a measure gives
--   Env             P/6.3/env.c: myunsetenv (my_unsetenv), mysetenv (my_setenv), in Env.Defs
--   Scatter         P/5.7/scatterIO.c: mywritev (my_writev), myreadv (my_readv)
--   Children        P/26.5/multi_SIGCHLD.c: main and sigchldHandler (parent_step) and the exit of a
--                   child (child_step) as steps in any order
--   Dup             P/5.4/mydup.c: mydup, mydup2 (Dup.Defs), and dup2 as POSIX has it
--                   (Dup.Reference)
--   Echo            P/62.2/server.c: tcpHandle and udpHandle (Echo.Handlers), the loops over
--                   select and epoll (Echo.Loops)
--   Inet            common/inet_sockets.c under linux_programing_interface: inetConnect
--                   (inet_connect), inetPassiveSocket (inet_passive_socket), inetListen, inetBind
--   Watch           P/19.1/main.c: the array wdName and its operations (Watch.Table),
--                   displayInotifyEvent and main (Watch.Events)
--   Notify          P/52.2.b/file_server.c: the notification of a queue and the threads it starts
--   Exec            P/27.2/main.c: myExeclp (my_execlp) and execShScrip, in Exec.Defs
--   Procs           P/12.1/main.c: the search of a status file of /proc (show_status, in
--                   Procs.Status), the loop over the entries (Procs.Scan)
--   Flock           P/55.2/main.c: two processes that lock two files, as steps in any order
--   Join            R/30.4.thread_multijoin/thread_multijoin.c: threadFunc and the loop of main
--   Pingpong        P/44.1/main.c: the loops of a parent and a child with two pipes
--   Select          P/62.1/main.c: the bytes written to picked pipes (write_all) and the loop over
--                   select (select_loop), in Select.Defs
--   Poll            R/62.3.poll_pipe/poll_pipe.c: main (poll_pipes), in Poll.Defs
--   Remote          P/61.5: main of client.c (client) and the request of data() in Remote.Defs, its
--                   redirection in Remote.Redirect, the parent of server.c with its handler
--                   (Remote.Serving)
--   Signals         P/20.1: sig_receive.c behind its start, as steps in any order
--                   (Signals.Receiver), and main of sig_sender.c (Signals.Sender)
--   Ftok            P/45.1/main.c: the key calculated from a file's numbers (calculate), in Ftok.Defs
--   Mcopy           P/49.1/main.c: a copy through two mappings (mcopy)
--   Fifo            R/44.7.fifo: the loop of fifo_seqnum_server.c (serve), and fifo_seqnum_client.c
--                   (client)
--   Perms           P/15.3/file_perms.c: filePermStr (file_perm_str)
--   Numbers         R/1.seek_io/error_functions/get_num.c: getnum, getLong (get_long),
--                   getInt (get_int)
--
-- Calls of the kernel and of the C library, but for its functions on strings, are not modelled:
-- their results come in as arguments (does open succeed, which chunks does read return, is a
-- message accepted) or as moves of a scheduler (how short is a read, does fork fail, when does a
-- child exit, is a wait interrupted). In Inet they are functions of the pass and of the address.
-- strtol, atol, putenv, the getenv of Env, execve, ftok, getpwnam, getspnam, crypt, the choice of
-- a free descriptor and the read and write of Scatter are functions that the theorems take; what
-- the system says of the signals is a record (Platform). A read or a write outside an array is a
-- result of its own (fault, none). Output by printf is kept where a property speaks of it.
--
-- A loop over an array is structural recursion on the list. A server's loop runs over the list of
-- what it receives. Programs with several threads or processes are runs of any length of a chosen
-- schedule, and a bound on their steps takes the place of fuel: 8 n + 12 rounds for a file of n
-- bytes in Copier, 20 steps in Pingpong. The loop of Select runs over the calls of select that are
-- given, and one more than the bytes are enough. The loops of Inet run on fuel and say so when it
-- is used up (looping): two passes are enough where they end early, and no fuel is where they do
-- not end. An `int` that only counts (clientCount, numLiveChildren) is not bounded to 32 bits; the
-- num of Copier is, and so are getInt's conversion from `long`, the numbers of Ftok and oldTimes
-- of Delay.
--
-- Not modelled: error exits of the start-up calls but those of the talk programs, of
-- check_password.c and of the clients of P/46.4 and R/46.7.svmsg; a failed `read` in the copier; a
-- failed mq_receive or msgrcv of a client that waits for its file; the end of a thread in P/31.2,
-- and a failure of its thread-specific keys; the loops of P/62.2 over poll, whose children run
-- beside it, and over signals; R/48.4.svshm_xfr, whose two programs have no semaphore set in
-- common; P/55.4, which shows what the kernel does with locks; the text of messages for the user;
-- and the programs that are thin sequences of system calls.
pub mod Prelude
pub mod CString
pub mod Procs
pub mod Runs
pub mod Talk
pub mod Paths
pub mod Copier
pub mod Transfer
pub mod Env
pub mod Scatter
pub mod Dup
pub mod Poll
pub mod Remote
pub mod Signals
pub mod Select
pub mod Ftok
pub mod Mcopy
pub mod Fifo
pub mod Delay
pub mod Svmsg
pub mod Password
pub mod Mount
pub mod Once
pub mod Echo
pub mod Watch
pub mod Inet
pub mod Notify
pub mod Exec
pub mod Flock
pub mod Join
pub mod Pingpong
pub mod Children
pub mod Perms
pub mod Numbers
