-- ===== src/Lib.antt =====
-- chroutine: coroutines ("chroutines") on a pool of kernel threads, in C++. A chroutine runs until it
-- yields, waits, or blocks on a channel; its thread's scheduler then picks the next one that is due.
--
-- Prelude: names of the standard library that the other files share, Boolean tests, lists of ids, and
--   an integer type over the native numbers.
--
-- Channel (engin/channel.hpp): `channel_t<T>`, a ring of `max_size` cells with a queue of waiting
--   writers and one of waiting readers. `write`, `read`, `reset` and `create` are the methods, `step`
--   any one of them; an outcome is the reply, the channel, and the effects: data stored through a
--   reader's pointer, and chroutines woken by `engine_t::awake_chroutine`. Channel/Valid has the
--   invariant of the indices and queues, Channel/Spec a bounded queue without indices that the ring
--   implements (Spec/Refine) and the account of what is delivered (Spec/Fifo), Channel/Blocking the
--   calls that block, Channel/Reading those that may not, Channel/Idle a channel for which nobody waits. T is any type, and a `HOLD()` is the reply `holds`.
--
-- Chroutine (engin/chroutine.hpp, engin/chroutine.cpp, engin/reporter.hpp): `chroutine_t`, one task.
--   `wait` and `yield_over` decide when it is due and what ends its wait.
--
-- Schedule (engin/chroutine.hpp, engin/chroutine.cpp): `schedule_t`, the tables of one thread.
--   The list `chroutines_sched` is cut in two at `sched_iter`. Schedule/Tables has the invariant that
--   the map has just the ids of the list, Schedule/Nodes what the operations keep of each object.
--
-- Scheduler (engin/chroutine.cpp): `yield_current`, `wait_current`, `pick_run_chroutine`,
--   `awake_chroutine`, the end of `entry`, and the part of the creations that changes the tables. A
--   switch of contexts ends a step. Scheduler/Scan is about the loop of `pick_run_chroutine`,
--   Scheduler/Inv about the invariant, Scheduler/Steps about the step relation and what it reaches,
--   Scheduler/Pick and Scheduler/Progress about which chroutine is picked, Scheduler/Waits about
--   fathers and sons, Scheduler/Idle about a thread that runs none, Scheduler/Keeps about which
--   chroutines a function may bring into the tables, Scheduler/Hold about the wake-up of a chroutine
--   that blocks on a channel (`HOLD` of engin/engine.hpp).
--
-- Thread (engin/chroutine.hpp, engin/chroutine.cpp): `chroutine_thread_t` round those tables, with
--   the guards of its public functions and its main loop in parts. Thread/Load has `load_t`,
--   Thread/Move the move of the chroutines of a blocked thread to another one.
--
-- Engine (engin/engine.hpp, engin/engine.cpp): `engine_t`, the pool of threads. Thread objects stand in
--   a store by their addresses, since the pool, the list of creation and the callers share them.
--   Engine/Start is about `init` with `on_thread_ready`, as a relation of launches and calls,
--   Engine/Dispatch about `get_lightest_thread`, Engine/Blocked about `check_threads`: Blocked/Sort
--   its first loop, Blocked/Moves its second. Engine/Owners is about all threads at once: Owners/Steps has
--   the step relation of the engine, Owners/Moving and Owners/Checking the moves of `check_threads`,
--   Owners/Creating the creations.
--
-- Selecter (engin/chan_selecter.hpp, engin/chan_selecter.cpp): `chan_selecter_t`, the cases that are
--   read from several channels; the channels stand in a store. Selecter/First is about
--   `select_once`, Selecter/Cases about the table.
--
-- Chutex (util/chutex.hpp, util/chutex.cpp): `chutex_t` and `chutex_guard_t`, the lock that the others
--   take for granted. Chutex/Exclusion interleaves the guards of any number of chroutines.
--
-- Selectable objects (engin/selectable_obj.cpp) are in Engine/Selectable, with the `create` functions of
--   the classes that inherit from `selectable_object_it`.
--
-- Engine/Running has `init`'s epoll thread, the HTTP stubs, `run` up to the main loop and `stop_all`, and
--   Engine/Ending is about its loop. Timer (util/timer.hpp, util/timer.cpp) is `chr_timer_t` over the
--   selecter; Timer/Stopping is about `start` and `stop`. Tools (util/tools.cpp) has the loop of
--   `thread_ms_sleep`, with Tools/Sleep.
--
-- Net (net/epoll): Net/Block is `raw_data_block_t` (socket.hpp) over a memory that lists what is freed;
--   Block/Owner and Block/Dangling are about its buffers. Net/Socket is `socket_t` (socket.cpp): Send is
--   about `write`, Resend about `on_write`, Reading about `on_read`; Setup has what is done to a
--   new descriptor. Net/Epoll is `epoll_t` (epoll.cpp)
--   with the objects of its handlers and the sinks that own them: Closing is about `close_fd` and
--   `on_close`, Events about the turns of `select`, Live, Accepts, Writes and Turns about the table that `add_fd`,
--   new connections, `on_write` and `select` leave. Net/Server is `raw_tcp_server_t`, Net/Client `raw_tcp_client_t`;
--   both use Net/Drain, the loop of their `select` over the channel of blocks to write. Server/Traffic,
--   Client/Writing and Client/Connecting are about them, and Server/Echo puts the parts together with the
--   chroutine of examples/tcp_echo_server_example. What a call of the system returns is an
--   argument: a list of returns, or a function of the socket's state.
--
-- Http (net/http_client): Http/Request is `curl_req_t` and `curl_rsp_t` (curl_req.cpp), Http/Stub is
--   `curl_stub_t` (curl_stub.cpp): Filling and Bound are about `add_todo_to_doing` and the size of the
--   table, Waits about `execute_all_async`, Answers about `read_and_clean` and `exec_curl`, Prepared about the request that it makes, Life about
--   any history of `exec_curl` and `select`. What libcurl
--   returns is an argument.
--
-- Rpc (net/rpc): Rpc/Server is `call_round_it` and `grpc_async_server_it` (grpc_async_server.cpp), with
--   Server/Listening about the rounds that listen; Rpc/Client is `client_sync_call_t` with its base
--   (grpc_async_client.cpp, grpc_sync_client_for_chroutine.hpp), with Client/Deadline. The events of the
--   completion queues are an argument, and so is what `create_me` returns.
--
-- Bounds: numbers are unbounded naturals where the code has an int or a time that it only counts and
--   compares; an argument that may be negative is an integer, cut at zero where the code returns at
--   `<= 0`. Chroutine ids are the 64 bits of an int64_t, whose increment wraps round, the seed of
--   `get_lightest_thread` is the 32 bits of an int, and `m_creating.size() - 1` is a size_t of 64
--   bits. Most loops walk a list once. Three run on fuel: `close_fd` of Net/Epoll, where a handler
--   that closes itself calls it once more, so 2 is enough; the loop of Net/Drain, which ends if the
--   fuel is more than the blocks in the channel; and `execute_all_async` of Http/Stub, which waits
--   at most 10 times, so 11 is enough. A call of a member function of a destroyed object has no
--   defined result: Net/Epoll marks it and stops there. The write of `on_new_data` to its sink's
--   channel runs outside of any chroutine, where `HOLD` returns at once, so it returns on a full
--   channel too; on one that is locked for ever it does not.
--
-- Not modelled: the stacks and registers of contexts; interleavings inside a function that a chutex
--   guards; log output; the clock, whose readings are arguments; net/redis_client, an empty shell;
--   the generated code of net/proto_code; and the vendored libraries. Of the engine: the handlers of
--   signals. Where `select` of a server or a client writes to a socket, the call of `mod_fd`
--   succeeds; so does the assertion on `make_socket_non_blocking`. The address of a new object is
--   none that was used before.
pub mod Prelude
pub mod Channel
pub mod Chroutine
pub mod Schedule
pub mod Scheduler
pub mod Thread
pub mod Engine
pub mod Selecter
pub mod Chutex
pub mod Timer
pub mod Tools
pub mod Net
pub mod Http
pub mod Rpc
