-- ===== src/Proudnet/Server/CoreMessages/Kept.antt =====
-- src/proudnet/server.cpp: what a client has for the server itself changes no id and no group.
use hovorun.Prelude.{◌==◌, Option-cases, if_elim, ℕ, inl, inr, false, List, [], ◌∷◌}
use hovorun.Containers.IdSet
use hovorun.Containers.IdSet.{IdSet}
use hovorun.Containers.IdMap.{IdMap}
use hovorun.Net.Message.Decodes.{Result-cases}
use hovorun.Net.Message.Writer.{Writer}
use hovorun.Proudnet.MessageType
use hovorun.Proudnet.CoreRmi
use hovorun.Proudnet.Types.{rmi_begin}
use hovorun.Proudnet.Server.{Server, find}
use hovorun.Proudnet.Server.Books.{
  SameBooks, SameBooks-refl, SameBooks-trans, queue-SameBooks, has-find, send-SameBooks,
}
use hovorun.Proudnet.Server.Relay.{
  read_reliable, reliable_relay2_message, send_reliable, relay_reliable, destinations,
  read_unreliable, unreliable_relay2_message, send_once, send_unreliable, relay_unreliable,
  read_udp_frame, reliable_udp_frame_relay2_message, relay_reliable_udp_frame,
}
use hovorun.Proudnet.Server.CoreMessages.{
  reply, server_time_message, receive_speed_message, handle_core_message, handle_core_rmi,
  read_ping, reply_server_time,
}

pub reply-SameBooks : (from : ℕ) (w : Writer) (s : Server) → SameBooks s (reply from w s)
unfolding reply
reply-SameBooks from w s = elim (Option-cases (find from s)) [
  | inl e ↦ rw (e, reply) (SameBooks-refl s)
  | inr (p, e) ↦ rw (e, reply) (queue-SameBooks from _ s (has-find from s p e))
]

send_reliable-SameBooks :
    (from : ℕ) (bytes : List ℕ) (dests : List (ℕ × ℕ)) (s : Server)
    → SameBooks s (send_reliable from bytes dests s)
unfolding send_reliable
send_reliable-SameBooks from bytes [] s = SameBooks-refl s
send_reliable-SameBooks from bytes ((dest, frame) ∷ dests) s =
    SameBooks-trans (send-SameBooks dest (reliable_relay2_message from frame bytes) false s)
      (send_reliable-SameBooks from bytes dests _)

relay_reliable-SameBooks :
    (from : ℕ) (r : List ℕ) (s : Server) → SameBooks s (relay_reliable from r s)
unfolding relay_reliable
relay_reliable-SameBooks from r s = elim (Result-cases (read_reliable r)) [
  | inl (e, q) ↦ rw (q, relay_reliable) (SameBooks-refl s)
  | inr (((dests, bytes), rest), q) ↦
      rw (q, relay_reliable) (send_reliable-SameBooks from bytes dests s)
]

send_once-SameBooks :
    (w : Writer) (ids : List ℕ) (sent : IdSet) (s : Server)
    → SameBooks s (send_once w ids (sent, s)).1
unfolding send_once
send_once-SameBooks w [] sent s = SameBooks-refl s
send_once-SameBooks w (id ∷ ids) sent s =
    SameBooks-trans
      (if_elim (SameBooks s) (IdSet.contains id sent) (λ _. SameBooks-refl s)
        (λ _. send-SameBooks id w false s))
      (send_once-SameBooks w ids (IdSet.insert id sent) _)

send_unreliable-SameBooks :
    (groups : IdMap IdSet) (from : ℕ) (w : Writer) (dests : List ℕ) (sent : IdSet) (s : Server)
    → SameBooks s (send_unreliable groups from w dests (sent, s)).1
unfolding send_unreliable
send_unreliable-SameBooks groups from w [] sent s = SameBooks-refl s
send_unreliable-SameBooks groups from w (dest ∷ dests) sent s =
    let st = send_once w (destinations groups from dest) (sent, s) in
    SameBooks-trans (send_once-SameBooks w (destinations groups from dest) sent s)
      (send_unreliable-SameBooks groups from w dests st.0 st.1)

relay_unreliable-SameBooks :
    (from : ℕ) (r : List ℕ) (s : Server) → SameBooks s (relay_unreliable from r s)
unfolding relay_unreliable
relay_unreliable-SameBooks from r s = elim (Result-cases (read_unreliable r)) [
  | inl (e, q) ↦ rw (q, relay_unreliable) (SameBooks-refl s)
  | inr (((dests, inner), rest), q) ↦
      rw (q, relay_unreliable)
        (send_unreliable-SameBooks s.groups from (unreliable_relay2_message from inner) dests [] s)
]

relay_udp-SameBooks :
    (from : ℕ) (r : List ℕ) (s : Server) → SameBooks s (relay_reliable_udp_frame from r s)
unfolding relay_reliable_udp_frame
relay_udp-SameBooks from r s = elim (Result-cases (read_udp_frame r)) [
  | inl (e, q) ↦ rw (q, relay_reliable_udp_frame) (SameBooks-refl s)
  | inr (((dest, (frame, bytes)), rest), q) ↦
      rw (q, relay_reliable_udp_frame)
        (send-SameBooks dest (reliable_udp_frame_relay2_message from frame bytes) false s)
]

reply_server_time-SameBooks :
    (server_time from : ℕ) (r : List ℕ) (s : Server)
    → SameBooks s (reply_server_time server_time from r s)
unfolding reply_server_time
reply_server_time-SameBooks server_time from r s = elim (Result-cases (read_ping r)) [
  | inl (e, q) ↦ rw (q, reply_server_time) (SameBooks-refl s)
  | inr ((client_time, rest), q) ↦
      rw (q, reply_server_time)
        (reply-SameBooks from (server_time_message client_time server_time) s)
]

-- No message for the server itself, relayed or answered, changes which ids are peers, groups, free or
-- next, or who is in a group.
pub handle_core_message-SameBooks :
    (server_time from type : ℕ) (r : List ℕ) (s : Server)
    → SameBooks s (handle_core_message server_time from type r s)
unfolding handle_core_message
handle_core_message-SameBooks server_time from type r s =
    let p = SameBooks s in
    if_elim p (type == MessageType.request_server_time_and_keep_alive)
      (λ _. reply_server_time-SameBooks server_time from r s)
      (λ _.
        if_elim p (type == MessageType.speed_hack_detector_ping) (λ _. SameBooks-refl s)
          (λ _.
            if_elim p (type == MessageType.request_receive_speed_at_receiver_side)
              (λ _. reply-SameBooks from receive_speed_message s)
              (λ _.
                if_elim p (type == MessageType.reply_receive_speed_at_receiver_side)
                  (λ _. SameBooks-refl s)
                  (λ _.
                    if_elim p (type == MessageType.reliable_relay1)
                      (λ _. relay_reliable-SameBooks from r s)
                      (λ _.
                        if_elim p (type == MessageType.unreliable_relay1)
                          (λ _. relay_unreliable-SameBooks from r s)
                          (λ _.
                            if_elim p (type == MessageType.reliable_udp_frame_relay1)
                              (λ _. relay_udp-SameBooks from r s) (λ _. SameBooks-refl s)))))))

pub handle_core_rmi-SameBooks :
    (from rmi_id : ℕ) (s : Server) → SameBooks s (handle_core_rmi from rmi_id s)
unfolding handle_core_rmi
handle_core_rmi-SameBooks from rmi_id s =
    if_elim (SameBooks s) (rmi_id == CoreRmi.c2s_reliable_ping)
      (λ _. reply-SameBooks from (rmi_begin CoreRmi.reliable_pong) s)
      (λ _.
        if_elim (SameBooks s) (rmi_id == CoreRmi.c2s_shutdown_tcp)
          (λ _. reply-SameBooks from (rmi_begin CoreRmi.shutdown_tcp_ack) s)
          (λ _. SameBooks-refl s))
