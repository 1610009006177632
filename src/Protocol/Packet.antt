-- ===== src/Protocol/Packet.antt =====
-- host/src/protocol/packet.rs: the 16-byte header, the framed packet, and their codecs.
pub mod Header
pub mod Framing
pub mod Errors
mod Tests
use ord.Prelude.{
  ℕ, ◌+◌, ◌*◌, ◌%◌, ◌^◌, ◌≤◌, ◌<◌, List, [], ◌∷◌, ◌++◌, Bool, true, false, ◌&&◌, Option, none, some,
}
use ord.Prelude.{Result, ok, err, ◌>>=◌, ltb, ◌==◌, if◌then◌else◌, length, slice}
use ord.Bytes.{IsBytes, write_u16, write_u32, read_u8, read_u16, read_u32}

-- "ORD1"
abbrev pub ord_magic : List ℕ
ord_magic = 0x4F ∷ 0x52 ∷ 0x44 ∷ 0x31 ∷ []

abbrev pub ord_protocol_version : ℕ
ord_protocol_version = 1

abbrev pub ord_header_size : ℕ
ord_header_size = 16

abbrev pub max_payload_size : ℕ
max_payload_size = 16 * 1024 * 1024

pub data PacketError : Type 0 where
  invalid_magic : List ℕ → PacketError
  unsupported_version : ℕ → PacketError
  incomplete_packet : ℕ → ℕ → PacketError
  payload_too_large : ℕ → PacketError
  io : PacketError
  serialization : PacketError

pub record OrdHeader : Type 0 where
  pub version : ℕ  -- u8
  pub msg_type : ℕ  -- u8
  pub flags : ℕ  -- u16
  pub sequence : ℕ  -- u32
  pub payload_len : ℕ  -- u32

pub record OrdPacket : Type 0 where
  pub header : OrdHeader
  pub payload : List ℕ

-- `OrdHeader::new`
unfoldable pub new_header : ℕ → ℕ → ℕ → ℕ → OrdHeader
new_header msg_type flags sequence payload_len = record {
  version = ord_protocol_version;
  msg_type = msg_type;
  flags = flags;
  sequence = sequence;
  payload_len = payload_len;
}

-- `OrdHeader::encode`: the writes through the cursor, one after the other. They fill the buffer of
-- `ord_header_size` bytes, so that none of them can fail.
unfoldable pub encode_header : OrdHeader → List ℕ
unfolding write_u16 write_u32
encode_header h =
    ord_magic
    ++ (h.version
        ∷ h.msg_type
        ∷ (write_u16 h.flags ++ (write_u32 h.sequence ++ write_u32 h.payload_len)))

-- `?` on a read of the cursor: `std::io::Error` becomes `PacketError::Io`.
abbrev pub or_io : Option (ℕ × List ℕ) → Result PacketError (ℕ × List ℕ)
or_io (some r) = ok r
or_io none = err io

-- `read_exact` into an array of four bytes
unfoldable pub read_magic : List ℕ → Result PacketError (List ℕ × List ℕ)
read_magic (a ∷ b ∷ c ∷ d ∷ rest) = ok (a ∷ b ∷ c ∷ d ∷ [], rest)
read_magic _ = err io

-- `==` on arrays of bytes
unfoldable pub bytes_eq : List ℕ → List ℕ → Bool
bytes_eq [] [] = true
bytes_eq (a ∷ as') (b ∷ bs) = a == b && bytes_eq as' bs
bytes_eq _ _ = false

-- The part of `OrdHeader::decode` behind the check of the version.
unfoldable pub decode_fields : ℕ → List ℕ → Result PacketError OrdHeader
unfolding read_u8 read_u16 read_u32
decode_fields version cursor = do
  (msg_type, cursor) ← or_io (read_u8 cursor)
  (flags, cursor) ← or_io (read_u16 cursor)
  (sequence, cursor) ← or_io (read_u32 cursor)
  (payload_len, cursor) ← or_io (read_u32 cursor)
  if ltb max_payload_size payload_len
      then err (payload_too_large payload_len)
      else ok (record {
        version = version;
        msg_type = msg_type;
        flags = flags;
        sequence = sequence;
        payload_len = payload_len;
      })

abbrev pub bytes_ne : List ℕ → List ℕ → Bool
bytes_ne a b = if bytes_eq a b then false else true

abbrev pub version_ne : ℕ → Bool
version_ne version = if version == ord_protocol_version then false else true

-- `OrdHeader::decode`
unfoldable pub decode_header : List ℕ → Result PacketError OrdHeader
unfolding read_magic bytes_eq read_u8 decode_fields
decode_header bytes =
    if ltb (length bytes) ord_header_size
    then err (incomplete_packet ord_header_size (length bytes))
    else do
      (magic, cursor) ← read_magic bytes
      if bytes_ne magic ord_magic then err (invalid_magic magic) else do
        (version, cursor) ← or_io (read_u8 cursor)
        if version_ne version
            then err (unsupported_version version)
            else decode_fields version cursor

-- `OrdPacket::new`; the length is cast by `as u32`.
unfoldable pub new_packet : ℕ → ℕ → ℕ → List ℕ → OrdPacket
unfolding new_header
new_packet msg_type flags sequence payload =
    let payload_len = length payload % 2 ^ 32 in
    record { header = new_header msg_type flags sequence payload_len; payload = payload }

-- `OrdPacket::encode`
unfoldable pub encode_packet : OrdPacket → List ℕ
encode_packet p = encode_header p.header ++ p.payload

-- `OrdPacket::decode`
unfoldable pub decode_packet : List ℕ → Result PacketError OrdPacket
decode_packet bytes = do
  header ← decode_header bytes
  let total_len = ord_header_size + header.payload_len
  if ltb (length bytes) total_len
      then err (incomplete_packet total_len (length bytes))
      else ok (record { header = header; payload = slice ord_header_size total_len bytes })
