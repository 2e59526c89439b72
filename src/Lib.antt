-- ===== src/Lib.antt =====
-- A multithreaded web server in C: GET, HEAD and PUT of files in its directory.
--
-- The program's parts. httpserver.c accepts connections and hands them to workers through two queues
-- (queue.c). A worker runs `handle_request` (server.c) on a connection's state: it reads and parses
-- the request line and the header fields as views of the request buffer (strview.c, helpers.c), opens
-- the file, moves a body between socket and file, builds the response in the response buffer, sends
-- it, and logs a line (log.c).
--
-- The files and what they model.
--   Memory       a C buffer as the list of its bytes, a pointer as an offset; an access outside it is
--                a `fault`, as are a failed assertion and a division by zero (Base/Effects)
--   Helpers      helpers.c; the children are about `my_utoa` and `find_delim`
--   StrView      strview.c and strview.h; a NULL pointer is `none`
--   Queue        queue.c; Queue/Spec is the bounded queue, Queue/Represents the invariant of the ring,
--                and Queue/Waits the threads that sleep on its condition variable
--   Bind         bind.c, over the socket calls of the system; Bind/Ends is about how it ends
--   Startup      `main` of httpserver.c up to its accept loop; the children are about the port, what
--                the threads share, and the ways in which the start ends
--   Os           the system calls that the server makes, as a record of operations on a world, and the
--                documented behaviour of read, write and local arrays; Os/Beside is about two
--                descriptors at once
--   Server       server_enums.h, reqres.h, and the state of server.c
--   Server/Text, Server/Response    the response: `build_header` and what it calls
--   Server/Transfer                 `my_read`, `read_get_body`, `send_res`
--   Server/Validate, Server/Parse   the checks of a request, `parse_rl` and `parse_hf`
--   Server/Files, Server/Read, Server/Body   `open_get_file`, `create_filename`, `read_rl`, `read_hf`,
--                `read_request_body`
--   Server/LogLine, Server/Handle   `send_log`, `cleanup`, `handle_request`
--   Server/States                   `create_state_buffer` and `destroy_state_buffer`
--   Server/Answer, Server/Served    the rounds of `handle_request` that send an answer, and those that
--                read a GET or HEAD before it and log it after it
--   Log          log.c; Log/Kept is about what is logged and what is written
--   Pool         the accept loop and the workers of httpserver.c as steps; Pool/Sound is their
--                invariant, and Pool/Shutdown the steps once `term` is set and the accept loop has ended
--   FileReadwrite   file_readwrite.c; the children are about the names it makes and about its mutex
--   Clock        time.c, which prints the time of day
--   Tests        a small concrete system, and the theorems applied to concrete inputs
--
-- Numbers are natural numbers; a size_t difference and the ssize_t arithmetic of `parse_to_int` wrap
-- modulo 2 ^ 64. A char is its byte; `compare_vs` orders bytes as signed chars. A C string is the list of
-- its bytes without the NUL.
--
-- Loops. `my_utoa` has 20 rounds of fuel, the digits of the largest uint64_t. `send_res` has one round
-- for each byte to be sent and one more: every round but the last sends a byte. `flush_logger` has
-- one for each byte buffered and one more. The fuel of the loops that wait for a peer is an argument;
-- `spin` is a loop that still runs when it is used up.
--
-- Not modelled. Locks carry no data: a call of queue.c is one critical section, of which Queue/Waits says
-- who sleeps before it and who is woken after it; log.c is run by one thread. Left out are the signal masks and the handler of httpserver.c, its
-- accept loop between the setting of `term` and its end, and the calls that only free. Of the
-- unfinished file_readwrite.c, which does not compile, `destroy_file_rw_ex` and the two functions that
-- close are left out.
pub mod Base
pub mod Memory
pub mod Helpers
pub mod StrView
pub mod Queue
pub mod Os
pub mod Server
pub mod Log
pub mod Pool
mod Tests
pub mod Bind
pub mod Startup
pub mod FileReadwrite
pub mod Clock
