-- ===== src/Protocol/Codec.antt =====
-- CommonModule/protocol/PacketCodec.cpp: framing of packets over a byte stream.
pub mod RoundTrip
pub mod Stream
pub mod Delivery
mod Tests
use xlchat_project.Common.{
  ℕ, zero, suc, Option, none, some, ◌+◌, ◌≡◌, Bool, List, [], ◌∷◌, ◌++◌, length, take, drop, ltb,
  not, ◌==◌, if◌then◌else◌,
}
use xlchat_project.Protocol.{Packet, magic, current_version, header_size, max_payload_size}
use xlchat_project.Protocol.Words.{put16, put32, put64, get16, get32, get64}

-- The header's fields in the order written; `static_cast<quint32>` keeps a size below the limit.
unfoldable pub header : Packet → List ℕ
header p =
    put32 magic
    ++ put16 p.version
    ++ put16 p.message_type
    ++ put64 p.request_id
    ++ put32 (length p.payload)

-- An oversized payload encodes to the empty array.
unfoldable pub encode : Packet → List ℕ
encode p = if ltb max_payload_size (length p.payload) then [] else header p ++ p.payload

pub data FrameError : Type 0 where
  invalid_magic unsupported_version payload_too_large : FrameError

-- The status of `nextPacket` with what it sets: the buffer after the call, the packet, the message.
pub data Decoded : Type 0 where
  need_more_data : List ℕ → Decoded
  invalid_data : FrameError → List ℕ → Decoded
  packet_ready : Packet → List ℕ → Decoded

unfoldable pub append_data : List ℕ → List ℕ → List ℕ
append_data buffer bytes = buffer ++ bytes

-- The end of `nextPacket`, from the check of the payload's length on.
unfoldable pub take_packet : List ℕ → ℕ → Decoded
take_packet buffer payload_length =
    if ltb (length buffer) (header_size + payload_length)
    then need_more_data buffer
    else packet_ready
        (record {
          version = get16 (drop 4 buffer);
          message_type = get16 (drop 6 buffer);
          request_id = get64 (drop 8 buffer);
          payload = take payload_length (drop header_size buffer);
        })
        (drop (header_size + payload_length) buffer)

unfoldable pub next_packet : List ℕ → Decoded
unfolding take_packet
next_packet buffer =
    if ltb (length buffer) header_size
    then need_more_data buffer
    else if not (get32 buffer == magic)
    then invalid_data invalid_magic []
    else if not (get16 (drop 4 buffer) == current_version)
    then invalid_data unsupported_version []
    else if ltb max_payload_size (get32 (drop 16 buffer))
    then invalid_data payload_too_large []
    else take_packet buffer (get32 (drop 16 buffer))

unfoldable pub reset : List ℕ → List ℕ
reset buffer = []

unfoldable pub buffered_size : List ℕ → ℕ
buffered_size buffer = length buffer

-- `RequestHandler::onReadyRead`: the new bytes join the buffer, then packets are taken from it and
-- processed until one is incomplete, or the stream is invalid and the connection is closed. What
-- `processPacket` and the error response do to the connection's state `S` are the parameters.
pub data Read {ℓ} (S : Type ℓ) : Type ℓ where
  waiting : List ℕ → S → Read S
  closed : List ℕ → S → Read S

module _ {ℓ} {S : Type ℓ} (process : Packet → S → S) (reject : FrameError → S → S) where
  -- `none` means that the fuel ran out.
  unfoldable pub read_loop : ℕ → List ℕ → S → Option (Read S)
  read_loop zero buffer s = none
  read_loop (suc fuel) buffer s = elim (next_packet buffer) [
    | need_more_data b ↦ some (waiting b s)
    | invalid_data e b ↦ some (closed b (reject e s))
    | packet_ready p b ↦ read_loop fuel b (process p s)
  ]

  -- Each packet takes at least a header off the buffer, so its length bounds the rounds.
  unfoldable pub on_ready_read : List ℕ → List ℕ → S → Option (Read S)
  unfolding append_data
  on_ready_read buffer bytes s = let b = append_data buffer bytes in read_loop (suc (length b)) b s
