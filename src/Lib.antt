-- ===== src/Lib.antt =====
-- corestack-peky: a small Unix shell (tetrish) with its system programs. This library models the
-- parts that carry its logic.
--
-- Raft (src/tetrish/system_programs/raft.c, include/tetrish/raft.h) is a replicated log. A node is
-- one record, `RaftNode`; each C function is one function of it, and the calls that a server makes
-- are the events of `Raft.Events`. Its modules, in the order in which they use each other:
--   Raft/Types        structs, message types, the lines of the log file, and the constants
--   Raft/Os           writes to the log file, the clock, the random source, the election timer
--   Raft/Boot         restore_pstate, create_log_file, initialise_raft_sm
--   Raft/Election     terms, time-outs, HandleRequestVoteRequest and HandleRequestVoteResponse
--   Raft/Replication  AdvanceCommitIndex_locked, raft_commit_entry, raft_append_entries,
--                     HandleAppendEntriesRequest and HandleAppendEntriesResponse,
--                     raft_leader_send_command
--   Raft/Events       one call as one step, and histories of calls
--   Raft/Cluster      several nodes whose vote requests and answers are under way: Cluster/Run says what
--                     can happen to them, restarts left out; the other files lead to election safety
-- The other modules of Raft hold proofs, and are named for what they prove; Raft/Tests and
-- Raft/Scenarios run the code on concrete nodes.
--
-- How the Raft code is modelled:
--   - a C array is a function of the index, with `log_len` or `peer_count` as its length. That
--     `peer_count` is at most 8 and a request holds at most 64 entries is what the arrays of the
--     structs leave room for;
--   - a `uint64_t` wraps at 2^64 (`u64`) wherever the source adds to one;
--   - the operating system is the record `Os`: the lines of the node's log file, and the outcomes of
--     the writes, the clock and `rand` that are still to come. A list that is used up means that
--     writes succeed, that the clock fails (-1) and that `rand` answers 0;
--   - the log file is a list of lines (`LogLine`). A failed write leaves no line, a failed `fsync`
--     leaves its line. How a line is printed and scanned is not modelled;
--   - each call runs as one step, as the node's mutex has it. Pointers are not NULL. The heartbeat
--     interval that only the unfinished loop reads, printing, `writeLog`, and the functions that the
--     source has commented out are left out.
--
-- Chord (src/tetrish/system_programs/chord.c, include/tetrish/chord.h) is the arithmetic of a hash
-- ring of 8 keys: Chord/Ring has the code, Chord/Fingers and Chord/Successor its theorems.
--
-- Wire (src/libtetrissh/common.c) has the helpers of the secure file transfer: Wire/Ints turns
-- integers into bytes and back, Wire/Sockets reads and writes whole messages on a stream socket.
-- `recv` and `send` are fields of a record (`Socket`) with the law of a stream (`IsStream`). The two
-- loops run on fuel, the length that was asked for; each round moves at least one byte, so it is
-- enough. Wire/Messages and Wire/Duplex have the fields of a message on a connection in both
-- directions (`IsDuplex`) that holds (`IsOpen`), Wire/Progress what a read leaves, and Wire/Pipe is a
-- concrete connection for runs.
--
-- Transfer (src/libtetrissh/common.c, reference/pa2/ClientWithSecurityCP2.c and
-- ServerWithSecurityCP2.c) is the secure file transfer:
--   Transfer/Openssl   what the code calls of OpenSSL, a record of functions; `IsPair` and `IsLawful`
--                      are what its manual says of a pair of keys, of the cipher and of the MAC
--   Transfer/Session   session_encrypt and session_decrypt; proofs in Session/Tokens
--   Transfer/Blocks    rsa_encrypt_block, rsa_decrypt_block, encrypt_file, decrypt_file; proofs in
--                      Blocks/RoundTrip. Their loops run on the length as fuel: each round takes a byte
--   Transfer/Keys      keys, certificates and signatures, on the contents of their files
--   Transfer/Server    the message loop of the server, with a count of rounds; Transfer/Ends has its end
--   Transfer/Client    auth and the loop over the typed names
-- The proofs of the handshake are in Transfer/Identity and Transfer/Handshake, those of a whole
-- transfer in Transfer/Delivery, those of lengths that do not fit in Transfer/Faults. The outcomes of
-- RAND_bytes, of files and of the disk are arguments; `malloc` does not fail. A NULL pointer that is
-- followed and an array that is overrun end the server (`crash`). What is printed is left out.
--
-- Plant (src/tetrish/system_programs/dplant.c) is the plant daemon:
--   Plant/Stats        the plant, its cycle, a daemon's rounds and the waterings from other processes, as
--                      events on what the daemon holds and what the state file holds. Times are
--                      seconds, whose differences are below 2^31; a water level and a level are never
--                      negative, a health may be. Proofs in Plant/Life, Plant/Invariant, Plant/Restart
--   Plant/Files        fgets, sscanf and dprintf on the bytes of a text file without zeros, as far as the
--                      registry uses them; numbers stay in the range of an int. Proofs below it
--   Plant/Registry     the registry of daemons and the graveyard: is_daemon_registered,
--                      daemon_register, is_plant_running, add_to_graveyard, dkill_auto; proofs in
--                      Registry/Register, Registry/Kill and Registry/Graves
--   Plant/Command      main and respawn_plant, on what they do to the registry
-- Forking, the lock file, log lines and paths are not modelled: which files open, which processes
-- there are and which calls of `kill` succeed are arguments.
--
-- Shell (src/tetrish/cmdline.c, builtin.c, shell.c) is the interactive shell. A C string is the list
-- of its character codes; `malloc` and `strdup` do not fail. Text has `strcmp`, `strchr` and what
-- else of C's strings the code uses.
--   Shell/History     the ring of past lines: history, hist_up, hist_down; proofs in History/Recall
--   Shell/Aliases     alias_find, alias_lookup, bi_alias, bi_unalias on the alias list; the loops over
--                     the arguments are recursions on them, with a count of those to skip. Proofs in
--                     Aliases/Lookup, Aliases/Commands and Aliases/Quotes
--   Shell/Words       tokenise and expand_alias; proofs in Words/Tokens and Words/Expand
--   Shell/Editor      the editing keys of line_read on its buffer, once the loop has read them (`Key`);
--                     proofs in Editor/Buffer, Editor/Jumps and Editor/Keys
--   Shell/Environment bad_name, bi_setenv, bi_unsetenv on the environment as a function of the name;
--                     the C library's setenv and unsetenv fail on the names that POSIX has them refuse.
--                     Proofs in Environment/Variables
-- A command line goes through `tokenise` and `expand_alias`; the alias list that it reads is what
-- `bi_alias` and `bi_unalias` leave. How `line_read` decodes escape sequences, tab completion, fork
-- and exec are not modelled.
--
-- Not modelled: the programs that print what the operating system answers (find, ld, ldr, sys,
-- backup), the other daemon tools (dspawn, dkill, dcheck), and the unfinished tetris programs.
pub mod Common
pub mod Text
pub mod Raft
pub mod Chord
pub mod Wire
pub mod Transfer
pub mod Plant
pub mod Shell
