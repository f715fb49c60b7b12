-- ===== src/Lib.antt =====
-- ebBNC, a port bouncer for FTP servers: its cipher, its configuration and the editor of it, its
-- servers, its clients and its start.
--
-- The program reads a configuration, either from a text file or from a text that is compiled into it
-- (config.c). The second is made by the configuration editor (makeconf.c): its dialogue collects a
-- `Config`, `Config_saveBuffer` prints it, `encrypt` enciphers it with XTEA in cipher block chaining
-- (xtea.c) and writes it in hexadecimal (hex.c) for conf.h. On its start the program goes the other
-- way: `hexDecode`, `XTeaDecryptCBC`, `Config_loadBuffer`. `main` (main.c) then looks at the pid file,
-- opens a socket for each bouncer (server.c), goes into the background and gives each connection to
-- a thread (client.c), which connects to the remote host, sends it an IDNT line with the user that
-- an ident server names (ident.c), and relays in both directions.
--
-- Files:
-- - Common and its children: names of the libraries, Boolean tests, lists measured by native numbers,
--   the exclusive or, bytes and words, integers, and the ways in which a routine can end.
-- - Xtea: xtea.c, `XTeaEncrypt` and `XTeaDecrypt` (`xtea_encrypt`, `xtea_decrypt`); proofs in Rounds
--   and Block. Xtea/Cbc: `XTeaEncryptCBC`, `XTeaDecryptCBC`; the specification in Chain, proofs in
--   Encrypt, EncryptCall, Decrypt and RoundTrip. Xtea/Ecb: `XTeaEncryptECB`, `XTeaDecryptECB`; proofs
--   in Loops and Calls.
-- - Hex: hex.c; proofs in Encode and Decode.
-- - Embedded: `XTeaGenerateIVec` of xtea.c, `encrypt` of makeconf.c, `Config_decryptEmbedded` of
--   config.c; proofs in Encrypted, Decrypted, RoundTrip and Safety. Embedded/Load:
--   `Config_loadEmbedded`, the end of makeconf's `main` and `saveHeader`, with the proofs on them.
-- - Libc: the functions of the C library on strings, and in Scan the directives of `fscanf`, from
--   their documented behaviour; proofs in Tokens, Numbers and Stream.
-- - Misc: misc.c, the helpers on numbers, text and input, and `strPrintf` in Misc/Format.
-- - Config: config.h and config.c, `Bouncer_parse`. Config/Load: `Config_sanityCheck` and
--   `Config_loadBuffer`. Config/Save: `Config_saveBuffer`. Config/File: `Config_loadFile`. Proofs in
--   LoadSound, LoadSafe, BouncerText, Lines, SaveLoad, LoadSaved and RoundTrip.
-- - Makeconf: makeconf.c, the loop of `main`; the states it reaches in Reach, more proofs in Complete
--   and Password. Makeconf/Typed: the dialogue with answers in printed characters, and what it
--   collects; proofs on one turn in Leaves, Hands, LeavesBouncer and Collects, on every state in
--   Gathered. The way from there to the start of the program in Saved, Printed, Loaded and
--   Served.
-- - Memory: blocks at addresses, and the loop that frees a list of records. Memory/Release: what it
--   means that addresses are freed. Memory/Chain: lists of records, whose end is in Ends. Proofs on
--   a record in Record, on a pointer to it in Links and on the list in Frees. Config/Free,
--   Server/Free and Start/Free have what config.c, server.c and main.c free, with proofs in
--   Config/Free/Frees and Server/Free/Frees, and Server/Listen how server.c makes its list, with
--   proofs in Server/Listen/Lockstep, Built and All.
-- - System: what the program asks of the system, and programs that do. System/Wp: monitors, and what
--   holds of a program under one. System/Descriptors: the monitor of the open descriptors, with rules
--   in System/Keeps. System/Channel: the monitor of the bytes from one descriptor to another.
--   System/Same: programs that make the same calls.
-- - Address: misc.c, socket addresses and the options of sockets; proofs in Address/Port.
-- - Ident: ident.c, `identLookup` (`ident_lookup`), and in Ident/Reply its `fscanf`; proofs in Accepts,
--   Names and Descriptors.
-- - Client: client.c, the thread (`client_thread_main`), with the replies in Client/Reply, the IDNT
--   line and the welcome in Client/Greeting and `Client_relay` in Client/Relay. Proofs on descriptors
--   in Descriptors, Serves and Closes, on the IDNT line in Idnt and Idnt/Questions, on the bytes
--   relayed in Contents and Returned, on the end of the relay in Deadline; Replies is shared by them.
-- - Server: server.c; proofs in Server/Descriptors, Server/Loaded, Server/Loop and
--   Server/Threads.
-- - Process: misc.c, the process and its file; proofs in Process/PidFile.
-- - Start: `main` of main.c, in the build that reads a configuration file (`start`) and in the one that
--   has it embedded (`start_embedded`); proofs in Start/Once.
-- - Tests: runs at fixed inputs, and the theorems at inputs that meet their hypotheses.
--
-- State and operations: an array is the list of its bytes, and a pointer into it the rest from
-- there on; an access out of range is the outcome `fault` or `crash`. A C string is the list of its
-- bytes before the zero. A list of bouncers or of servers is a list, its head the one added last;
-- where it is freed, and a list of servers where it is made, it is a second time a chain of records
-- at addresses, in a `Heap` of blocks. The variables of makeconf's loop are the record `Editor`,
-- and one turn of the loop is `turn`. A function that calls the system is a program (`Io`), the
-- tree of its calls with a branch for each answer; a descriptor of -1 is `none`. A monitor follows
-- the calls with a state of its own: `Allowed` says which calls the state lets pass, `Legal` which
-- answers the system may give, and `Wp` that every call of a program is allowed and its result and
-- the last state are as stated, for all legal answers.
--
-- Parameters: the byte order of the host (`Endian`), the answers of the allocator (`alloc n`), of
-- /dev/urandom (`Urandom`), and of `inet_pton`, `inet_ntop` and `getaddrinfo` (`Resolver`, `Inet`);
-- the addresses that `calloc` gives to servers (`fresh`); the text CONF_EMBEDDED; what `fgets` and
-- `getpass` read; whether conf.h can be written. The answers of the system to a program's calls are
-- all those that the monitor of a theorem calls legal.
--
-- Fuel: `encrypt_loop` and `decrypt_loop` get one more than the length of the text, and each pass
-- takes a block off it; `load_lines` gets one more than the length of the text, and each pass takes
-- a byte off it at least; `print_digits` gets one more than the number. The passes of
-- `Client_relay` and the turns of `Server_loop`, which have no bound of their own, are counted, and
-- the theorems hold for any number of them. `free_list` gets the length of the list, and each pass
-- frees one record; `listen_all_at` gets one more than there are bouncers.
--
-- Assumptions: lengths below 2 ^ 63, a signed `char`, a `long` of 64 and an `int` of 32 bits, arrays
-- that do not overlap, the C locale, a null pointer for %s printed as the GNU C library does, and no
-- newline in the byte before the static buffer of `promptInput`. `read` and `write` take descriptors
-- that the thread owns, and an ident server's stream is read to its end or its timeout.
--
-- Not modelled: addresses of memory and its freeing, but for the lists and the configuration; the
-- messages on the standard streams; FD_SETSIZE; the attributes of threads; what two threads share,
-- which is the configuration that neither changes.
pub mod Common
pub mod Xtea
pub mod Hex
pub mod Embedded
pub mod Libc
pub mod Misc
pub mod Config
pub mod Makeconf
pub mod Memory
pub mod System
pub mod Address
pub mod Ident
pub mod Client
pub mod Server
pub mod Process
pub mod Start
mod Tests
