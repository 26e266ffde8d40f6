-- ===== src/Handler/Dispatch/Tests.antt =====
-- Dispatch of concrete packets.
use xlchat_project.Common.{
  ℕ, ◌≡◌, ◌⊎◌, refl, Option, some, none, List, [], ◌∷◌, arith, Text, codes, text_eq,
}
use xlchat_project.Protocol.{Packet}
use xlchat_project.Handler.{
  ok, replay_rejected, session_invalid, response_to, error, no_data, respond, new_conn, World, emit,
  Route,
}
use xlchat_project.Handler.Session.{validate_session}
use xlchat_project.Handler.Dispatch.{
  Request, Node, process_packet, find_route, matches, is_among, type_names, request_type,
}
use xlchat_project.Handler.Dispatch.Guards.{process_packet_unauthenticated}
use xlchat_project.Handler.Examples.{hash, guest, alices}

-- Requests carry a token as their body; a handler notes its route by a response.
abbrev request : Request Text
request = record {
  type = codes "token_renew";
  token = 116 ∷ [];
  stamp = record { timestamp = some 100; nonce = 49 ∷ [] };
  body = [];
}

abbrev parse : List ℕ → Option (Request Text)
parse [] = none
parse (b ∷ bs) = some request

abbrev handle : Route → ℕ → Text → World → World
handle route id body w = emit (respond id (response_to route) ok no_data) w

abbrev node : Node
node = record {
  world = alices;
  cache = some (record { nonces = []; ttl_seconds = 600; max_entries = 100 });
}

abbrev renewal : Packet
renewal = record { version = 1; message_type = 14; request_id = 9; payload = 123 ∷ [] }

abbrev guest_node : Node
guest_node = record { world = guest; cache = none }

process_packet_unauthenticated_example :
    ((process_packet hash parse handle 1000 1000 renewal guest_node).world
      ≡ emit (respond 9 error replay_rejected no_data) guest)
    ⊎ ((process_packet hash parse handle 1000 1000 renewal guest_node).world
        ≡ emit (respond 9 error session_invalid no_data) guest)
unfolding find_route matches is_among type_names request_type text_eq validate_session new_conn
process_packet_unauthenticated_example =
    process_packet_unauthenticated hash parse handle 1000 1000 renewal guest_node request
      (omega arith) refl refl refl
