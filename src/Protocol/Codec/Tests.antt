-- ===== src/Protocol/Codec/Tests.antt =====
-- Framing on concrete packets.
use xlchat_project.Common.{ℕ, ◌≡◌, refl, some, List, [], ◌∷◌, ◌++◌, take, drop, arith}
use xlchat_project.Protocol.{Packet, IsSendable}
use xlchat_project.Protocol.Codec.{FrameError, Read, waiting, on_ready_read}
use xlchat_project.Protocol.Codec.Stream.{read_on, on_ready_read_total, on_ready_read-append}
use xlchat_project.Protocol.Codec.Delivery.{encode_all, process_all, on_ready_read-encode_all}

abbrev ping : Packet
ping = record { version = 1; message_type = 3; request_id = 7; payload = [] }

abbrev login : Packet
login = record { version = 1; message_type = 1; request_id = 8; payload = 123 ∷ 125 ∷ [] }

-- The types of the packets processed, and 0 for a rejection.
abbrev process : Packet → List ℕ → List ℕ
process p seen = seen ++ p.message_type ∷ []

abbrev reject : FrameError → List ℕ → List ℕ
reject e seen = seen ++ 0 ∷ []

ping-IsSendable : IsSendable ping
ping-IsSendable = record {
  is_current = refl;
  type_fits = omega arith;
  id_fits = omega arith;
  payload_fits = omega arith;
}

login-IsSendable : IsSendable login
login-IsSendable = record {
  is_current = refl;
  type_fits = omega arith;
  id_fits = omega arith;
  payload_fits = omega arith;
}

-- The second packet arrives in two pieces.
abbrev stream : List ℕ
stream = encode_all (ping ∷ login ∷ [])

on_ready_read_total_example :
    (r : Read (List ℕ)) × (on_ready_read process reject [] stream [] ≡ some r)
on_ready_read_total_example = on_ready_read_total process reject [] stream []

on_ready_read-append_example :
    on_ready_read process reject [] (take 23 stream ++ drop 23 stream) []
    ≡ read_on process reject (on_ready_read process reject [] (take 23 stream) []) (drop 23 stream)
on_ready_read-append_example =
    on_ready_read-append process reject [] (take 23 stream) (drop 23 stream) []

on_ready_read-encode_all_example :
    on_ready_read process reject [] (encode_all (ping ∷ login ∷ [])) []
    ≡ some (waiting [] (process_all process (ping ∷ login ∷ []) []))
on_ready_read-encode_all_example =
    on_ready_read-encode_all process reject (ping ∷ login ∷ []) []
      (ping-IsSendable, (login-IsSendable, tt))
