-- ===== src/Protocol/Codec/RoundTrip.antt =====
-- PacketCodec: what `encode` writes, `nextPacket` reads back, whatever follows it.
use xlchat_project.Common.{
  ℕ, ◌+◌, ◌≡◌, refl, List, ◌++◌, arith, length, drop, length-append, append_assoc, ltb, false,
  drop-add, take-append_length, drop-append_length,
}
use xlchat_project.Protocol.{Packet, IsSendable, magic, header_size, max_payload_size}
use xlchat_project.Protocol.Words.{put16, put32, put64, get16, get32, get64}
use xlchat_project.Protocol.Codec.{header, encode, next_packet, packet_ready}

module _ (p : Packet) (h : IsSendable p) (t : List ℕ) where
  length-header : length (header p ++ t) ≡ 20 + length t
  unfolding header put32 put64 put16
  length-header = omega arith

  header-magic : get32 (header p ++ t) ≡ magic
  unfolding header put32 put64 put16 get32
  header-magic = refl

  header_version : get16 (drop 4 (header p ++ t)) ≡ p.version
  unfolding header put32 put64 put16 get32
  header_version = omega (arith, h.is_current)

  header_type : get16 (drop 6 (header p ++ t)) ≡ p.message_type
  unfolding header put32 put64 put16 get32
  header_type = omega arith

  header_id : get64 (drop 8 (header p ++ t)) ≡ p.request_id
  unfolding header put32 put64 put16 get64
  header_id = omega arith

  header-length : get32 (drop 16 (header p ++ t)) ≡ length p.payload
  unfolding header put32 put64 put16 get32
  header-length = omega arith

  drop-header : drop header_size (header p ++ t) ≡ t
  unfolding header put32 put64 put16
  drop-header = refl

-- From a buffer that starts with what `encode` wrote for a sendable packet, `nextPacket` returns
-- exactly that packet and keeps exactly the bytes behind it.
pub next_packet-encode :
    (p : Packet) (rest : List ℕ)
    → IsSendable p
    → next_packet (encode p ++ rest) ≡ packet_ready p rest
unfolding encode next_packet
next_packet-encode p rest h =
    let t : List ℕ = p.payload ++ rest in
    let fits : ltb max_payload_size (length p.payload) ≡ false = ground (arith, h.payload_fits) in
    rw fits (
      rw (append_assoc (header p) p.payload rest) (
        ground (
          arith,
          length-header p h t,
          header-magic p h t,
          header_version p h t,
          header_type p h t,
          header_id p h t,
          header-length p h t,
          drop-header p h t,
          length-append p.payload rest,
          drop-add header_size (length p.payload) (header p ++ t),
          take-append_length p.payload rest,
          drop-append_length p.payload rest,
          h.is_current,
        )))
