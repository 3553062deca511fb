-- ===== src/Lib.antt =====
-- Distray hands the frames of an animation to worker machines. A controller (src/controller.cpp) keeps
-- one RemoteWorker for each worker, asks it over a socket to copy files in, to execute a program and to
-- copy files out, and a proxy (src/proxy.cpp) stands between the two where neither can reach the other.
-- This library models the parts of it that compute, and leaves the operating system as an argument:
-- what poll, accept, recv and ::send answer, in which pieces, is given to the definitions event by
-- event, so that a theorem over all of these arguments is one over every behaviour of the network.
--
-- Base          Booleans, byte strings and lists over the native numbers, integers with the bounds
--               of an `int`, and (Members) elements of a list with a property.
-- Util          src/util.cpp. CString, Decimal and Strtol are what it uses of the C library and of
--               iostreams, by their documentation; Parameter is find_parameter, string_has_parameter and
--               substitute_parameter; Pathname is is_pathname_local; Endpoint is parse_integer and
--               parse_endpoint, and Endpoint.Lookup the lookup of addresses and the sockets; Files is
--               read_file and write_file.
-- Frames        src/Frames.hpp and src/Frames.cpp: parse, is_done and get_all. Parsing treats the
--               forms of a range, Range the list of frames.
-- Wire          The messages on the wire: a size of four bytes and a serialized protobuf message.
--               Outgoing is src/OutgoingBuffer.hpp, Incoming is src/IncomingBuffer.hpp, and Blocking
--               is send_message and receive_message of src/util.cpp. RoundTrip joins the two buffers.
-- Proxy         src/proxy.cpp. Buffers is class Buffer, Connections is class Connection with find, and
--               Proxy has close_connection and the loop of start_proxy: `serve` is the loop's body for
--               one descriptor, `round` one pass behind poll, and `run` the passes; Start has the whole
--               of it. A `Connection *` is the connection's place in the list.
-- Drp           src/Drp.proto: the messages as the generated accessors show them. Encoding is a plain
--               encoding of them, for the examples.
-- Parameters    src/Parameters.hpp: the records that the command line fills.
-- RemoteWorker  src/RemoteWorker.hpp and src/RemoteWorker.cpp: Members is what the object keeps, `switch`
--               the switch of dispatch and `dispatch_from` its loop. Session joins it with a worker that
--               answers, by the worker's side of the protocol (Start the welcome, Frame a frame);
--               Ending is about the rounds of the loop, Phases about the frame that a worker is on, and
--               Transfer has send, receive and fill_pollfd.
-- Worker        src/worker.cpp: the handlers of the four requests, `handle` for the switch, and `serve`
--               for the loop of start_worker, Start for the whole of it. Guards is about the checks on
--               what a controller asks for, Stream about the bytes on the socket.
-- CommandLine   src/Parameters.cpp: parse_arguments, over the list of arguments that are left. Outcome is
--               what it comes to, Locality treats the checks on pathnames, Flags the flags' meaning,
--               and Requests what a worker is asked by a command line that was taken.
-- Controller    src/controller.cpp: get_idle_worker, any_worker_working, kill_worker and the loop of
--               start_controller: `serve_worker` is the body of the inner loop for one worker,
--               `round` one pass behind poll, and `run` the passes. A `RemoteWorker *` is its place in
--               the list of workers. Keeping, Coverage, Handout and Lossless follow a frame through the
--               loop; Proxies is about the connections to the proxies, Progress about the calls of the
--               workers' dispatch, and Start is start_controller as a whole, before the loop too.
-- Exchange      Both ends of a connection: a request through OutgoingBuffer to the worker's loop, and its
--               response through IncomingBuffer to the controller, against a plain call.
-- Job           The controller's RemoteWorker and the handlers of the worker together, against a script on
--               their two disks, with neither states nor messages. Drive hands each request that waits to
--               the worker and its response to dispatch; Replies is about single responses, CopiesIn and
--               CopiesOut about the files, Frame about one frame, Life about a connection. Rounds is the
--               same with the loop of the controller, its buffers, and the loop of the worker, on a socket
--               that cuts the bytes into pieces: Delivery has a response come in, Asking, Answering and
--               Settled what dispatch leaves behind, Passes, Turn, Stream and Joins the passes of the loop, Carried one
--               exchange, Turns one after the other, Schedule all of them as one run of the loop, Readme
--               the order of execution of README.md as a script, and Whole the loop from its start to its
--               end, against that script.
-- Unittest      src/unittest.cpp: the tables, the loops over them and start_unittests. Outcome is about when
--               they pass.
-- Main          src/main.cpp: the command line and the switch.
--
-- Interactions: RemoteWorker sends through Wire.Outgoing and receives through Wire.Incoming, and
-- expands the names of Parameters by Util.Parameter. The controller has a list of RemoteWorkers, and the
-- disk of its machine is handed from one to the next. The worker receives and sends by Wire.Blocking, and
-- what it is asked comes from parameters that CommandLine has taken. Main has the commands as its
-- arguments. The proxy does not look at the bytes that it relays, and uses nothing of Wire but the
-- answers of recv and ::send.
--
-- Numbers: an `int` is an integer with its bounds written out where the code can leave them; a
-- uint32_t wraps at 2 ^ 32. Fuel: the loop of find_parameter has one round more than the text has bytes,
-- and each round passes at least one; substitute_parameter likewise. The loop of get_all has its fuel as
-- an argument, since it need not end. dispatch has as many rounds as there are copies and
-- four more: each round passes over a copy or goes to the next phase. The loop over
-- the flags has one round more than there are arguments, and each takes one at least. The loops of the
-- proxy, the worker and the controller go on as long as there are events, and these are an argument; Job
-- has as many exchanges as an argument says, with a bound from which on they are enough.
--
-- Parameters of the model: protobuf's serializer and parser, of which only the round trip that
-- protobuf documents is assumed (Wire.Codec), the files of the controller's machine
-- (RemoteWorker.Files), and the operating system of the worker's (Worker.Machine), where `spawn` stands
-- for fork, execv and wait4.
--
-- Not modelled: all output, and a pass of a loop in which poll itself fails, which ends the loop with
-- -1. The file streams (Util.Files), getaddrinfo and the calls on sockets
-- (Endpoint.Lookup) are arguments. The memory that a buffer points to is its list of bytes, and a failed
-- allocation is not modelled.
pub mod Base
pub mod Util
pub mod Frames
pub mod Wire
pub mod Proxy
pub mod Drp
pub mod Parameters
pub mod RemoteWorker
pub mod Worker
pub mod CommandLine
pub mod Controller
pub mod Main
pub mod Exchange
pub mod Job
pub mod Unittest
