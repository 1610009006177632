-- ===== src/Transport.antt =====
-- The transports of host/src/transport: the framed TCP stream, the USB accessory and the discovery
-- beacon.
pub mod Tcp
pub mod Usb
pub mod Discovery
