-- ===== src/Lib.antt =====
-- wayvnc is a VNC server for wlroots-based Wayland compositors. Its event loop connects a
-- capture of the screen (src/screencopy.c, src/ext-image-copy-capture.c) and the input devices
-- (src/keyboard.c, src/pointer.c) with the VNC library neatvnc, and a control socket (src/ctl-
-- server.c) with the client wayvncctl (src/ctl-client.c), both of which read their command lines
-- with src/option-parser.c. This library models the parts of it that have logic of their own, as
-- functions on records and lists, and proves what makes them correct. What the C library,
-- Wayland, pixman, xkbcommon, jansson and neatvnc do is a parameter where the code relies on it.
--
-- The modules, and the code that each is about:
-- - Prelude: names shared by the rest; Prelude.Int, signed integers; Prelude.Lists, lists with
--   native lengths and indices; Prelude.Resize, the block that realloc returns.
-- - Text: C strings as lists of bytes without the terminating zero (strcmp, strchr, strlcpy).
-- - IntSet: src/intset.c, function by function (intset_set is insert, intset__grow is grow).
--   IntSet.Laws has the representation invariant and insertion, IntSet.Removal clearing,
--   IntSet.Grow what happens at full capacity.
-- - Transform: src/transform-util.c. Transform.Canvas is about canvas points (doubles, here
--   fractions of a common denominator), Transform.Boxes about boxes and pixman matrices.
-- - Pixels: src/pixels.c.
-- - OptionParser: src/option-parser.c without the printing. OptionParser.Parse is
--   option_parser_parse and the functions below it (parse_from is its loop, which is given one
--   unit of fuel for each argument: each round takes at least one), OptionParser.Values the
--   queries. OptionParser.Invariant, Outcomes and Totality lead to the statement about every
--   command line; Forms and RoundTrip are about the ways to write an option.
-- - Json: the operations of jansson that the program calls, as a record with their documented
--   laws; Json.Sample is a small implementation on which the theorems are tried.
-- - JsonIpc: src/json-ipc.c. JsonIpc.Laws is about packing and parsing, JsonIpc.Format about the
--   buffer of jvprintf. A fault, a read outside a buffer, is the result none.
-- - CtlCommands: the tables of src/ctl-commands.c and the lookups in them (CtlCommands.Names).
-- - CtlServer: src/ctl-server.c between the calls of the socket. CtlServer.Commands is
--   parse_command and the constructors of the commands; CtlServer.Client is struct ctl_client
--   with the functions that enqueue (client_enqueue) and send (send_ready) messages;
--   CtlServer.Input reads bytes and values (client_read, client_next_object); CtlServer.Receive
--   is recv_ready (handle_objects is its loop, which is given one unit of fuel more than there
--   are bytes in the read buffer: each round takes at least one) with the commands' dispatch,
--   over the actions of src/main.c as parameters. Delivery, Drop, Requests, Loop, Events and
--   Unknown are about what clients receive.
-- - CtlClient: src/ctl-client.c (the options of a command and its request). CtlClient.Reading is
--   json_from_buffer and read_one_object, over a list of what poll and recv do; CtlClient.Run
--   sends requests and waits for responses and events (events_from is the loop of
--   ctl_client_event_loop, which is given one unit of fuel more than there are bytes and
--   attempts to come), CtlClient.Command is ctl_client_run_command. Given, Meant and Plans
--   relate command lines to the commands of CtlServer, Framed, Whole and Prints the bytes of the
--   socket to messages and events, Together a command to its answer by CtlServer; Reads,
--   Attempts and Ends are about the fuel.
-- - Keyboard: src/keyboard.c from symbols and codes to the requests of the virtual keyboard,
--   with the set of pressed keys of IntSet. Keyboard.Events is about one key, Keyboard.History
--   about any sequence of them.
-- - Cfg: src/cfg.c from the line on. Cfg.Lines is about one line, Cfg.Files about all lines of a
--   file.
-- - Vec: src/vec.c, whose block is a list of bytes; a write outside it is the result none.
-- - Output: src/output.c. Output.Cycle is about output_cycle, over the ring of wl_list nodes by
--   their numbers; Output.State has the state of an output, its events and the functions that
--   read it (Output.State.History and Output.State.Reads).
-- - Server: src/main.c as far as it decides when to capture (clients, the rate limit, the power
--   of the output, attaching and detaching), with the power of src/output.c. Server.Attach is
--   attaching and detaching; Server.Live has the events as a step function and the invariant of
--   its histories, Server.Faults the histories that go wrong.
-- - Seats: src/seat.c, and what src/main.c and src/wayland.c do with seats and VNC clients.
--   Seats.Counts, Occupied, Departure, Removal and Attached are about one event each,
--   Seats.History about any sequence of them.
-- - Clipboard: src/data-control.c, along the functions for the protocol of wlr, which those for
--   ext repeat. Clipboard.Transfer is about the pipes, Clipboard.Offers about offers and
--   selections.
-- - Screencopy: src/screencopy.c, with the calls that it makes of the pool and of src/main.c.
--   Screencopy.Held is the invariant of one call and the order of the calls, Screencopy.History
--   the histories.
-- - Desktop: the power of all outputs in src/desktop.c (Desktop.AllOutputs), with the outputs of
--   Server. Desktop.Screens has the captures of one output, with src/screencopy-interface.c, and
--   Desktop.Outputs those that a desktop makes of its outputs: Owned and Created are about who
--   holds them, Sound, Ends and Uses about one call each, History about any sequence of them;
--   Starting has the functions that use a capture, and Faults orders that go wrong.
-- - Pointer: src/pointer.c. Pointer.Follows is about one mask, Pointer.History about any
--   sequence of calls.
-- - Addresses: the addresses that src/main.c listens on. Addresses.Forms has the forms of an
--   address.
-- - Buffer: the pool of src/buffer.c, over the regions of pixman as a parameter; the operations
--   stand in Buffer.Ops. Buffer.Damage and Buffer.Captures compare what the buffers show with
--   the screen, Buffer.Counts and Buffer.Devices count the references of the devices, and
--   Buffer.Configs is about the comparison of configurations.
-- - Capture: src/ext-image-copy-capture.c, over an interface to the buffer pool. Capture.Formats
--   has the constraints of the session and the choice of a format (Capture.Formats.Choice),
--   Capture.Session the frames, the timer and the starts; Capture.Sound is the invariant of one
--   call, Capture.Sizes the size of a pixel for shared memory, Capture.Starts the histories.
--
-- Numbers are unbounded natural numbers with the wrap-around of the C type written out where the
-- code can reach it; int is taken to be wide enough for the sizes of the screen.
--
-- Not modelled: the set-up, the options and the cursor of src/main.c, and its answers to
-- commands, which are parameters of CtlServer; src/image-source.c and src/toplevel.c, which pass
-- calls on; the size and the scale of the desktop in src/desktop.c, which are doubles; what
-- src/output.c, src/output-management.c and src/wayland.c do with the objects of Wayland;
-- src/table-printer.c and what src/ctl-client.c prints; the half of src/data-control.c that is
-- for the protocol ext, which repeats the other; and logging and printing, shared memory
-- (src/shm.c), the bindings of neatvnc, and PAM, which have no logic of their own.
pub mod Prelude
pub mod Text
pub mod IntSet
pub mod Transform
pub mod Pixels
pub mod OptionParser
pub mod Json
pub mod JsonIpc
pub mod CtlCommands
pub mod CtlServer
pub mod Keyboard
pub mod Cfg
pub mod Vec
pub mod Output
pub mod Server
pub mod Capture
pub mod Buffer
pub mod Screencopy
pub mod Addresses
pub mod Desktop
pub mod Pointer
pub mod CtlClient
pub mod Seats
pub mod Clipboard
