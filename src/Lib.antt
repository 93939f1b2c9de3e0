-- ===== src/Lib.antt =====
-- A model of NetworkDoc, a document server in C, and of what its servers and their text and index
-- functions guarantee.
--
-- The program has three processes. The name server (src/nameserver/, include/nameserver.h) keeps the
-- catalogue of files, the storage servers, the users and the locks on sentences, in memory and in an
-- SQLite database. Storage servers (src/storageserver/) hold the contents. A client (src/client/)
-- sends one `Message` per command to the name server, which answers with the address of a storage
-- server or with an error. src/common/ holds the text functions, the trie and the message helpers.
--
-- Message: `Message`, the ERR_* codes and the two helpers (include/common.h, src/common/utils.c).
-- Trie, Trie/Node: `trie_create`, `trie_insert`, `trie_search`, `trie_delete` (src/common/trie.c). A node
--   is a tree value, since no node has two parents; a freed child is `null`. Trie/Search and Trie/Size
--   are about what is found and about the size field.
-- Text: `trim`, `parse_sentences`, `parse_words` (src/common/utils.c) and the loops of `handle_write` in
--   src/storageserver/ss_handlers.c that write the parts back. A fixed char array is a list cut to its
--   size, and a count is the length of a list.
-- Format: the conversions of sscanf and snprintf that the handlers use, on unbounded integers.
-- NameServer/State: `NameServerState`; an array with its count is a list. NameServer/Start: the state with
--   which `main` (src/nameserver/nm_main.c) begins, with what `load_files_from_db` puts into the trie.
-- NameServer/Database: SQLite is a parameter, a record of the statements the code prepares, with what
--   its documentation says of them as `DatabaseLaws`. A statement may fail to prepare or to finish.
-- NameServer/Permission, Servers, Locks, Register, Files, Edits, Access, Views: one function per handler
--   of src/nameserver/nm_handlers.c and nm_handlers2.c and per function of nm_db.c, from a state and a
--   message to the new state and the response that is sent. Views takes strftime as a parameter.
-- NameServer/Dispatch: `handle_client` (src/nameserver/nm_main.c). A handler holds the mutex throughout,
--   so the requests of all clients are one sequence of steps, `run`; `none` marks undefined behaviour, as
--   a string read past its array or a variable read unset. NameServer/Ownership follows the owner of a
--   file and the rights on it through such runs, NameServer/Numbering the numbers of the storage servers.
-- Storage/Host: the file system and the tables of a storage server are a parameter, with what the
--   documentation of fopen, unlink and SQLite says as `HostLaws`.
-- Storage/Content: the functions of src/storageserver/ss_main.c that read and write files and undo states.
-- Storage/Handlers, Storage/Edit: `validate_basic_request` and the handlers of
--   src/storageserver/ss_handlers.c, with the word edit of `handle_write` as `edit_content`.
-- Storage/Checkpoints, Storage/Streams: `handle_checkpoint_ops` and `handle_stream`, with the messages that
--   the latter sends as a list. Storage/Dispatch: `handle_client` of src/storageserver/ss_main.c, and the
--   server as a sequence of requests, `serve_all`. Storage/Undo, Saving, Isolation, Confinement: what a write
--   and an undo do, and which paths a request touches.
-- Client/Address, Client/Network: `parse_ss_info` and `contact_storage_server`
--   (src/client/client_main.c), and the exchange of a message for an answer. Sockets and popen are a
--   parameter on a state of the world; what a command prints is a list of texts.
-- Client/Args, Commands, Tags, Rights, Write, Stream: one function per command of
--   src/client/client_commands.c and client_commands2.c. Client/Shell: `connect_to_nameserver`,
--   `run_interactive_shell` and `print_help`, on the list of the lines that the terminal gives.
-- Examples: a database and a file system in memory that obey the laws, and runs on them.
--
-- A loop is structural recursion on a list or a string, but for three on fuel. `decimal` prints with fuel
-- n + 1 for the number n, of which each digit takes one. `stream_words` of the client takes one round for
-- each message received, and `run_interactive_shell` one for each line of the terminal that it reads and
-- one for its end; Client/Stream and Client/Shell say when that is enough. Characters are numbers, and the
-- theorems on the trie ask for bytes. The time and the socket of a request are part of an `Event`.
--
-- Not modelled: sockets, threads, the log and the clock, which are input and output; the creation of the
-- tables and of the directories; the three functions main, but for the state at the start; `register_with_nameserver`; `trie_free`,
-- `trie_search_prefix` and `split_string`, which no handler calls.
pub mod Base
pub mod Message
pub mod Trie
pub mod Text
pub mod Format
pub mod NameServer
pub mod Storage
pub mod Client
pub mod Examples
