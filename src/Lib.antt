-- ===== src/Lib.antt =====
-- OpenRemoteDisplay (ORD): the host, which lets an Android tablet serve as a display of a Linux desktop.
--
-- The host (host/src, Rust) waits for a tablet over TCP or over USB (Android Open Accessory), says
-- hello, makes a virtual display in GNOME Mutter, encodes its picture with GStreamer, sends the frames
-- as packets of the ORD protocol, and passes the tablet's touches, pointer and keys back to Mutter.
--
-- Which file models which part of the repository:
--   Protocol.Packet      host/src/protocol/packet.rs: the 16-byte header, packets, their codec, its errors
--   Protocol.Message     host/src/protocol/types.rs: codes, flags and the messages that travel as JSON
--   Protocol.Input       host/src/protocol/types.rs: InputEvent, encode and decode
--   Protocol.Coordinate  host/src/protocol/coordinate.rs: scaling and turning of positions
--   Transport.Tcp        host/src/transport/tcp.rs: FramedStream, read_packet, write_packet, write_frame_data
--   Transport.Tcp.Server host/src/transport/tcp.rs: TcpTransportServer, new and bind
--   Session.Reader       host/src/session/mod.rs, the USB read worker of handle_usb_client
--   Session.Screen       host/src/session/mod.rs: the screen to ask for, and its display
--   Session.Host         host/src/session/mod.rs, handle_client: greeting, display, pipeline, clean-up
--   Session.Loop         host/src/session/mod.rs, run_session_loop
--   Session.Wire         host/src/session/mod.rs, the select! of run_session_loop over FramedStream
--   Session.Recovery     host/src/session/mod.rs, recover_display
--   Session.Usb          host/src/session/mod.rs, the loop of handle_usb_client
--   Session.UsbHost      host/src/session/mod.rs, handle_usb_client: greeting, early returns, clean-up
--   Session.Writer       host/src/session/mod.rs, the USB write worker of handle_usb_client
--   Session.Shutdown     host/src/session/mod.rs, the end of handle_usb_client and its two workers
--   Transport.Usb        host/src/transport/usb.rs: the accessory's stream, the AOA switch, the searches
--   Transport.Usb.Accessory  host/src/transport/usb.rs, open_accessory
--   Transport.Usb.Control  host/src/transport/usb.rs, the control transfers of do_aoa_switch
--   Transport.Discovery  host/src/transport/discovery.rs: the beacon, the broadcaster and its tasks
--   Daemon               host/src/daemon.rs: HostDaemon::run, its tasks and the flag that they share
--   Daemon.Services      host/src/daemon.rs: run up to its loops, the broadcaster and the listener
--   Daemon.Freed         host/src/daemon.rs with the end of handle_usb_client, until the flag is cleared
--   Display              host/src/display/mod.rs, mutter.rs, test_source.rs, ticker.rs
--   Input                host/src/input/mutter_input.rs, uinput_backend.rs: the calls for an event
--   Input.Remote         host/src/input/mutter_input.rs: the RemoteDesktop session, new and drop
--   Encoder              host/src/encoder/pipeline.rs: the pipeline's text, the callback, start and stop
--   Encoder.Making       host/src/encoder/pipeline.rs: VideoPipeline::new, the bus task, its notification
--   Config               host/src/config.rs: settings, defaults, load_or_default, save
--   Cli                  host/src/main.rs: the commands, and what main does for each
--   Cli.Hosts            host/src/main.rs: the search for hosts on the network
--   Diagnostics          host/src/diagnostics.rs: what inspect finds out, and the report
-- Definitions have the names of the functions that they translate. Prelude, Bytes and Address hold what
-- the modules share: tests and lists over the native numbers, results, little-endian numbers, the text
-- of an address with its port.
--
-- How state and effects are written: a record for the state that a task keeps, and a function of that
-- state for one turn of its loop; what comes from outside (a read of a socket or of the accessory, a
-- frame, an answer of the bus, the end of a session) is an event or an argument, so that statements on
-- all lists of events are statements on all schedules. Errors are values of Result. Integers of w bits
-- are natural numbers with the wrap-around written out. f32, f64, serde_json, the connection below
-- write_all, D-Bus, libusb and GStreamer's registry are parameters; what is assumed of them are the
-- laws of Transport.Tcp.Sink, Session.Loop.Connection and Protocol.Coordinate.Float.
--
-- The parts meet in Session.Host and Session.UsbHost, which open a Display, make an Encoder
-- pipeline and an Input backend and run a loop over a transport; in Session.Host.Received and
-- Session.UsbHost.Received, where the packets of a session go over the wire to a reader of the same
-- framing; in Session.Host.Inputs and Session.UsbHost.Inputs, where the tablet's input events go
-- over the wire, through the handshake and the loop, to the calls on the desktop; in
-- Session.Host.Remote, where the yes or no that a session asks for is traced to the steps behind
-- it; in Session.Stops and Session.Usb.Stops, where the ScreenCast sessions that a session makes of
-- Mutter meet its calls of Stop; in Daemon.Freed, where the end of a USB session meets the daemon's
-- tasks and their flag; and in Cli.Hosts.Lan and Cli.Hosts.Started, where one host's beacons meet
-- another's search.
--
-- The end of a USB session, where three threads and two channels meet, is a step relation; the rounds
-- of the read worker over its accumulator are steps of it.
--
-- Bounds and fuel: loops recur on the list of reads or events. The loop of the USB read worker has
-- fuel, one more than the bytes in its accumulator; each round takes at least one byte.
-- The model of read_packet stops as `waiting` where the
-- connection has nothing more to give.
--
-- In the daemon's model one event lets one task run to its next wait. The test and the store of the
-- flag in the accept loop are two events, since the tasks run on several threads.
--
-- In Transport.Discovery an event is a call on the broadcaster or the end of a wait of one of its tasks.
-- In Diagnostics a text is the list of its characters, with the standard library's functions on it.
-- A port is printed with five digits at most, since it is below 2 ^ 16.
--
-- Not modelled: the parse of the command line (clap), the set-up of the logging, and what is logged;
-- peer_addr (host/src/transport/tcp.rs), which only asks the operating system; the drop of
-- MutterDisplayBackend, which only logs; the C programs of host/src/display; the Android client.
mod Prelude
pub mod Address
pub mod Bytes
pub mod Protocol
pub mod Transport
pub mod Config
pub mod Display
pub mod Input
pub mod Encoder
pub mod Session
pub mod Daemon
pub mod Cli
pub mod Diagnostics
