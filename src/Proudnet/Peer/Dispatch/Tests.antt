-- ===== src/Proudnet/Peer/Dispatch/Tests.antt =====
-- src/proudnet/server.cpp: payloads on small inputs, and the theorems at them.
use hovorun.Prelude.{if◌then◌else◌, replicate, ◌≡◌, refl, [], ◌∷◌, arith}
use hovorun.Net.Message.Reader.{pure, ◌>>=◌, take_bytes, read_word, read_u16}
use hovorun.Proudnet.Peer.{Peer, State, new_peer, encrypted_reliable}
use hovorun.Proudnet.Peer.Handshake.{Connection, on_rmi, event_rmi}
use hovorun.Proudnet.Peer.Handshake.Transition.{Transition}
use hovorun.Proudnet.Peer.Dispatch.{dispatch, process, process_payload}
use hovorun.Proudnet.Peer.Dispatch.Encrypted.{
  advanced, has_sealed_type, process_payload-encrypted_reliable, process_payload-other_serial,
}
use hovorun.Proudnet.Peer.Dispatch.Order.{process_payload-Transition}
use hovorun.Net.Bytes.{of_le}

abbrev some_connection : Connection
some_connection = record {
  id = 3;
  protocol_version = replicate 16 1;
  instance_guid = replicate 16 2;
  address = 127 ∷ 0 ∷ 0 ∷ 1 ∷ [];
  port = 4000;
  random_key = replicate 16 9;
  nonzero = λ i. 1;
}

abbrev some_peer : Peer
some_peer = record {
  state = State.connected;
  session_key = replicate 16 9;
  recv_serial = 65535;
  send_serial = 0;
}

-- An RMI before the connection is ignored.
early_rmi : process_payload some_connection (1 ∷ 5 ∷ 0 ∷ []) new_peer ≡ (new_peer, [])
unfolding process_payload process dispatch ◌>>=◌ pure read_word take_bytes of_le
early_rmi = refl

some_rmi :
    process_payload some_connection (1 ∷ 5 ∷ 0 ∷ 7 ∷ []) some_peer
    ≡ (some_peer, event_rmi 5 (7 ∷ []) ∷ [])
unfolding process_payload process dispatch on_rmi ◌>>=◌ pure read_word read_u16 take_bytes of_le
some_rmi = refl

process_payload-Transition_example :
    Transition some_peer (process_payload some_connection (1 ∷ 5 ∷ 0 ∷ 7 ∷ []) some_peer)
process_payload-Transition_example =
    process_payload-Transition some_connection (1 ∷ 5 ∷ 0 ∷ 7 ∷ []) some_peer

process_payload-encrypted_reliable_example :
    process_payload some_connection
      (encrypted_reliable some_peer.session_key some_peer.recv_serial (1 ∷ 5 ∷ 0 ∷ []))
      some_peer
    ≡ (if has_sealed_type (1 ∷ 5 ∷ 0 ∷ [])
        then (advanced some_peer, [])
        else process_payload some_connection (1 ∷ 5 ∷ 0 ∷ []) (advanced some_peer))
process_payload-encrypted_reliable_example =
    process_payload-encrypted_reliable some_connection (1 ∷ 5 ∷ 0 ∷ []) some_peer (λ e. cc)
      (omega arith) (omega arith)

process_payload-other_serial_example :
    process_payload some_connection
      (encrypted_reliable some_peer.session_key 0 (1 ∷ 5 ∷ 0 ∷ []))
      some_peer
    ≡ (some_peer, [])
process_payload-other_serial_example =
    process_payload-other_serial some_connection 0 (1 ∷ 5 ∷ 0 ∷ []) some_peer (λ e. cc)
      (omega arith) (λ e. ground arith) (omega arith)
