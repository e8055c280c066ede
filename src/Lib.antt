-- ===== src/Lib.antt =====
-- K9-Chatnet, a set of IRC services (NickServ, ChanServ, OperServ and others) written in C: a model of
-- its string routines, its session limiter, its tables of users, channels and messages, the channel
-- modes, the buffers of its socket, its lists of pointers, its ignore lists, its timeouts and the encoding
-- of its databases, and theorems about them.
--
-- The program reads lines from an IRC server, splits them, and calls a handler for each message. The
-- handlers keep tables of users, channels, sessions, exceptions and timeouts in linked lists and
-- arrays, and answer with commands to the server. Most of them use the string routines of misc.c.
--
-- Files and what they model:
--   Common            names of the libraries, tests on numbers, lists, integers, C strings
--   Text/Case         misc.c tolower, toupper; compat.c stricmp, strnicmp
--   Text/Wild         misc.c do_match_wild, match_wild, match_wild_nocase
--   Text/Number       misc.c dotime, process_numlist, with the C library's strtol and strcspn
--   Text/Token        misc.c myStrSubString, myStrGetToken, myStrGetTokenRemainder
--   Text/Clean        misc.c doCleanBuffer
--   Text/Search       misc.c stristr
--   Text/Replace      misc.c strnrepl
--   Session           sessions.c: Types the records, Table the sessions (HASH, findsession,
--                     add_session, del_session), Exceptions the list (exception_add, exception_del,
--                     expire_exceptions, find_host_exception), Commands the commands of do_exception,
--                     Run clients that connect and quit
--   Slist             slist.c: the lists of pointers with a capacity, an order and a limit
--                     (slist_add, slist_delete, slist_remove, slist_pack, slist_delete_range and
--                     the others), Blank, Pack and Ranges for the deletions, History for the
--                     sequences of operations
--   Process           process.c: Split the arguments of a line (split_buf), Ignore the ignored nicks
--                     (add_ignore, get_ignore), Handle process, with Words what it makes of a line and Chain
--                     the handlers that modules add
--   User              users.c match_usermask; Masks create_mask; Table the users by nick (new_user, change_user_nick,
--                     delete_user, finduser) and the loop over them (firstuser, nextuser)
--   Channel           channels.c: the lists of a channel's users and a user's channels (findchan,
--                     chan_create, join_user_update, chan_deluser, is_on_chan), Messages the handlers
--                     do_join, do_part and do_kick, Modes chan_set_modes with its tables, add_ban and
--                     del_ban
--   Socket            sockutil.c: the ring buffers, Read bytes that come (buffered_read_one), Write and
--                     Sent bytes that go (buffered_write, flush_write_buffer), Lines sgets and sgets2
--   Dispatch          modules.c addMessage, findMessage, delMessage: Chains the map from names to
--                     handlers, Undo deletions
--   HostServ          hostserv.c: the list of virtual hosts (findHostCore, insertHostCore, deleteHostCore,
--                     addHostCore, delHostCore, getvHost, getvIdent), Map and History as a map
--   ChanServ          chanserv.c: Check check_modes, with cbmodeinfos of channels.c; Mlock do_set_mlock; Access
--                     get_access, check_access, check_valid_op (Bans get_idealban, Kicks check_kick), and in Change do_adduser, do_moduser and
--                     do_remuser
--   MemoServ          memoserv.c: memo_send, delmemo, do_cancel and do_del; Kept and Deleting the numbers of
--                     do_del, Numbers and Boxes the numbers of all memos
--   NickServ          nickserv.c: the requests for nicks (insert_requestnick, findrequestnick,
--                     delnickrequest), Expiry expire_requests, Access is_on_access, Login
--                     validate_user, cancel_user, do_identify and do_logout, with do_nick of users.c
--   Timeouts          timeout.c add_timeout, del_timeout, check_timeouts
--   Database          datafiles.c: read_int16, write_int16 and the others, Encoding the bytes of a
--                     record, RoundTrip and Truncated what is read back
--   Tests             runs at concrete inputs, and the theorems at such inputs
--
-- Correspondence. A C string is the list of its bytes (numbers, without the terminating NUL). A linked
-- list or an array of pointers is a list from its head on; a write through a pointer to a list's entry
-- is a new list with that entry replaced, at a place that the search returns. A pointer to a user or a
-- channel is a number, what it points to a function of that number, and a pointer into a buffer its
-- offset. Static variables are the fields of a state record that each function takes and returns.
-- Messages to the network are a list of effects, or left out where a file says so. The clock is an
-- argument, and so are the answers of the other services where a file says so. Numbers are unbounded
-- except where a file says otherwise; an int that strtol fills keeps 32 bits. Where the C code exists in
-- versions for several IRC servers, the versions that differ only in the text they send are one, and of
-- the tables of modes the one for Bahamut is modelled. Of a user's virtual host and ident, and of a channel's
-- exceptions from bans, a value that is missing stands for the builds that have none.
--
-- Loops are recursion on the list they walk, or on fuel: the outer loop of process_numlist has one
-- more than the length of its string, as have those of slist_delete_range, strnrepl and split_buf, the loop of
-- expire_exceptions the length of the list, those of firstuser and nextuser one more than the number
-- of lists. A socket's buffer goes through any sequence of single reads, writes and rounds of the loops.
--
-- Not modelled: the handlers of the services other than those above, what ChanServ and BotServ do when
-- a user joins, the files of the databases, the system calls on sockets, the configuration file, the
-- loading of modules, the translations, logging and the formatting of messages.
pub mod Common
pub mod Text
pub mod Session
pub mod Slist
pub mod Process
pub mod User
pub mod Timeouts
pub mod Database
pub mod Channel
pub mod Socket
pub mod Dispatch
pub mod HostServ
pub mod ChanServ
pub mod MemoServ
pub mod NickServ
pub mod Tests
