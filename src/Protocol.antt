-- ===== src/Protocol.antt =====
-- CommonModule/protocol/Packet.h: the wire constants and the packet.
pub mod Words
pub mod Codec
use xlchat_project.Common.{ℕ, ◌*◌, ◌^◌, ◌<◌, ◌≤◌, ◌≡◌, List, length}

abbrev pub magic : ℕ
magic = 0x58594350

abbrev pub current_version : ℕ
current_version = 1

-- sizeof(quint32) + 2 * sizeof(quint16) + sizeof(quint64) + sizeof(quint32)
abbrev pub header_size : ℕ
header_size = 20

abbrev pub max_payload_size : ℕ
max_payload_size = 4 * 1024 * 1024

-- `message_type` is the quint16 on the wire: the decoder casts it unchecked, so any value arises.
pub record Packet : Type 0 where
  pub version : ℕ
  pub message_type : ℕ
  pub request_id : ℕ
  pub payload : List ℕ

-- The fields fit their machine words, and the packet is one that the encoder accepts.
pub record IsSendable (p : Packet) : Type 0 where
  pub is_current : p.version ≡ current_version
  pub type_fits : p.message_type < 2 ^ 16
  pub id_fits : p.request_id < 2 ^ 64
  pub payload_fits : length p.payload ≤ max_payload_size
