-- ===== src/Protocol/Codec/Delivery.antt =====
-- PacketCodec end to end: a sender's packets reach `processPacket` one by one, in order.
use xlchat_project.Common.{
  ℕ, zero, suc, ◌+◌, ◌≤◌, ◌<◌, ◌≡◌, refl, List, [], ◌∷◌, ◌++◌, arith, length, All, some,
}
use xlchat_project.Protocol.{Packet, IsSendable, header_size}
use xlchat_project.Protocol.Codec.{
  encode, next_packet, packet_ready, FrameError, waiting, read_loop, on_ready_read,
}
use xlchat_project.Protocol.Codec.RoundTrip.{next_packet-encode}
use xlchat_project.Protocol.Codec.Stream.{next_packet_takes}

abbrev pub encode_all : List Packet → List ℕ
encode_all [] = []
encode_all (p ∷ ps) = encode p ++ encode_all ps

abbrev pub process_all {ℓ} : {S : Type ℓ} → (Packet → S → S) → List Packet → S → S
process_all process [] s = s
process_all process (p ∷ ps) s = process_all process ps (process p s)

module _ {ℓ} {S : Type ℓ} (process : Packet → S → S) (reject : FrameError → S → S) where
  read_loop-encode_all :
      (ps : List Packet) (f : ℕ) (s : S)
      → All IsSendable ps
      → length (encode_all ps) < f
      → read_loop process reject f (encode_all ps) s ≡ some (waiting [] (process_all process ps s))
  unfolding read_loop
  read_loop-encode_all ps zero s h hf = elim hf [ ]
  read_loop-encode_all [] (suc f) s h hf = unfold next_packet in refl
  read_loop-encode_all (p ∷ ps) (suc f) s (hp, hps) hf =
      let e : next_packet (encode p ++ encode_all ps) ≡ packet_ready p (encode_all ps) =
        next_packet-encode p (encode_all ps) hp in
      let le : length (encode_all ps) + header_size ≤ length (encode p ++ encode_all ps) =
        next_packet_takes _ _ p e in
      rw (e, read_loop) (read_loop-encode_all ps f (process p s) hps (omega arith))

  -- The sendable packets that a sender encodes one after the other are each processed once, in the
  -- order sent, and leave the buffer empty and the connection open.
  pub on_ready_read-encode_all :
      (ps : List Packet) (s : S)
      → All IsSendable ps
      → on_ready_read process reject [] (encode_all ps) s
        ≡ some (waiting [] (process_all process ps s))
  unfolding on_ready_read
  on_ready_read-encode_all ps s h = read_loop-encode_all ps _ s h (omega arith)
