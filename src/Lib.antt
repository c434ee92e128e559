-- ===== src/Lib.antt =====
-- TMSxxTC: the core of a control unit for monitoring optical fibres. It takes part in the TMSxx
-- protocol between network managers and device cards.
--
-- How the parts interact. Bytes from a socket are received into a bipartite buffer
-- (osnet/bipbuffer.c), where `glink_FindFrame` (protocol/glink.c) looks for a frame: head tag, header
-- of 32 bytes, data, tail tag. A whole frame goes to `tms_Analyse` (protocol/tmsxx.c), which chooses a
-- row of one of its tables by the command and then calls the analyser of that row, forwards the frame
-- to a device or a manager, or hands it to the application. Whom to forward to is looked up in the
-- table of devices and the table of managers of the same file. Frames are sent by `glink_Send`. The epoll
-- server (osnet/epollserver.c) keeps a list of the connections; where one ends, its descriptor goes out of
-- both tables. The routes of the optical network are rows of a table of SQLite (src/tmsxxdb.c), which checks
-- them before they are inserted.
--
-- Files. Prelude and its children: names passed on, numbers of 32 bits, lists, blocks of bytes.
-- BipBuffer: `struct bipbuffer` with its storage, and its operations under their own names less the
-- prefix `bipbuffer_`; Valid the invariant, Fifo what the operations do to the committed bytes, Room
-- the reservation, Queue a queue of bytes and Run the refinement of it, Copy and Pointers the
-- operations that move bytes and those on addresses. Glink: `struct glink_base`, `glink_Build` and
-- `glink_FindFrame`; Wire the byte order, Find and Resync what is found, Send the senders, Sent and Ends
-- what they put on the wire and when they end. Devices: `sg_devnet`; Lookup and Descriptors its laws.
-- Managers: `sg_manage`; Table, Removal, Adding and Addresses its laws. Dispatch: `tms_Analyse` and
-- `tms_SetDoWhat`; Handlers, Managing and Device the tables, Rules the laws. Forward: `tms_Transmit2Dev`,
-- `tms_Transmit2Manager`, `tms_SendAllManager`, `tms_SendAllManagerDot` and `tms_Copy2Use`; Routes,
-- Broadcast and Header its laws. Replies: `tms_Tick`, `tms_Ack`, `tms_AckEx`, `tms_AckDevice` and
-- `tms_AnalyseAck`; Acknowledged its laws.
-- Messages: how the data of a message are put together and taken apart; Structures and Measures the
-- structures of tmsxx.h with their parts, Device, Config, Alarm and Lists the senders `tms_*` and the
-- analysers `tms_Analyse*` under their own names less the prefix, Request the messages whose analysers
-- exchange all their words, as one type; Exchange, Whole, Understood, Tables and Registered the laws,
-- Faults what some of them leave wrong. Receive: `epFUI_OnRecv` of src/ep_app.c, with the two buffers
-- of a connection; Frames, Turns, Stream and Cuts its laws. Shell: shell/minishell_core.c, the sorted table of
-- commands and the line that finds one; Order, Sorted, Lookup and Prompt its laws.
-- Database: the calls of SQLite, as a record of operations and laws that src/tmsxxdb.c takes as a parameter; Rows
-- the rows that meet conditions.
-- Routes: the functions `tmsdb_*` on the table of routes under their own names less the prefix; Lines and
-- Multi what the checks find out, Changes insertion and deletion, Trace how a line is found again, Commands
-- the branches `route go save` and `route del` of `cmd_route` (shell/cmd/cmd_tmsxx.c) and Restored what they do
-- together, the other children what these rest on. Settings: the functions `tmsdb_*` on five other tables, under the same names;
-- Laws what they have in common. Epoll: `struct ep_t` with its list of nodes and the functions `ep_*`, with
-- the callbacks `epFUI_On*`; Nodes the list, Admitting, Sound, Starting and Steps the single operations, Reachable the
-- states that a server comes to, Closing the end of a connection.
-- Tests: the theorems at concrete values.
--
-- Numbers. An `int` or `uint32_t` is its pattern of 32 bits, a number below 2 ^ 32; sums and
-- differences wrap, and signed comparisons read the pattern as two's complement. A pointer is an
-- address; NULL is 0. Memory is a list of bytes.
--
-- Fuel. `glink_SendSerial` runs along the list of what the coming calls of `send` meet, and `none` is a
-- loop that has not ended when the list has; Glink.Ends says which lists are long enough. Receive.again
-- takes the number of turns, and `none` stands for more; Receive.Cuts says how many are enough. So does
-- Routes.check_lines, and Routes.Multi says that one round for each row is enough. The
-- other loops run over a list or count down, and always end.
--
-- From outside. `malloc` is its result. `send` takes at most what it is given, or fails. What lies
-- beyond the received bytes is a function of the offset. What the kernel answers to `accept`, `connect`,
-- `listen`, `recv` and `epoll_ctl` is an argument of the operation in Epoll. SQLite is a record of its
-- operations: a selection gives the rows that meet the conditions in the order of their numbers, an
-- insertion puts a row behind the others, a deletion takes out the rows that meet the conditions, and each
-- may fail, as may BEGIN and COMMIT. What `tms_Analyse` leaves of the storage of a buffer is a parameter of Receive. The callbacks of the application are values in the result, or, in the analysers of Messages, left out. In Dispatch an
-- analyser is its name. `strcmp`, `memcmp` and `strtok` are the C library's, on strings without NUL.
--
-- Not modelled: an analyser that closes the connection whose frame it handles (in Receive), the senders and analysers of the messages that Messages does not name (OTDR curves and
-- parameters, reference data, device names), printing, the threads of the epoll server and its locks, the set of
-- descriptors that the kernel watches, sockets, the calls of the database without a condition or a mask and its
-- tables with blobs, the other commands of the shell and its loop over a terminal, and the call of `tms_AckDevice` at the
-- start of `tms_Analyse`, which is a make option.
pub mod Prelude
pub mod BipBuffer
pub mod Glink
pub mod Devices
pub mod Managers
pub mod Dispatch
pub mod Forward
pub mod Replies
pub mod Messages
pub mod Receive
pub mod Database
pub mod Routes
pub mod Settings
pub mod Epoll
pub mod Shell
mod Tests
