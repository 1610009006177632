-- ===== src/Session.antt =====
-- The sessions of host/src/session/mod.rs: the handshake and the loop over TCP, the worker that reads
-- the USB accessory, and the end of a USB session.
pub mod Reader
pub mod Loop
pub mod Wire
pub mod Line
pub mod Screen
pub mod Stops
pub mod Host
pub mod Recovery
pub mod Usb
pub mod UsbHost
pub mod Writer
pub mod Shutdown
