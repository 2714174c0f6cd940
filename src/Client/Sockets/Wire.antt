-- ===== src/Client/Sockets/Wire.antt =====
-- client/networking/BaseSocket.cpp with sendTcpMsg of shared/sharedUtils.cpp: a message as bytes, from
-- the side that sends it to the side that hears it. `serialize` and `parse` stand for protobuf.
use p2p_network.Base.{
  ℕ, ◌≡◌, refl, ◌*◌, ◌≤◌, false, some, List, ◌∷◌, arith, length, take, returns, take-all,
}
use p2p_network.Shared.{recvd}
use p2p_network.Shared.Message.{
  cc_fragment_request, cc_fragment_response, TcpMessage, fragment_request, FragmentResponse,
  fragment_response,
}
use p2p_network.Shared.Wire.{send_tcp_msg}
use p2p_network.Shared.Torrent.{Torrent}
use p2p_network.Client.Sockets.{Socket, Incoming, was_read, request_fragment}

-- MAX_MESSAGE_SIZE
abbrev pub max_message_size : ℕ
max_message_size = 128 * 1024

-- What one `read` makes of the bytes that wait: the parser is given those that were read, and no more of
-- the buffer.
unfoldable pub read_message : (List ℕ → TcpMessage) → List ℕ → Incoming
read_message parse waiting = was_read false (parse (take max_message_size waiting))

-- The message that a peer answers with.
abbrev pub fragment_message : FragmentResponse → TcpMessage
fragment_message r = record { code = cc_fragment_response; contents = fragment_response r }

-- A fragment over the wire: if the parser reads back what the serialiser wrote of the peer's answer, the
-- answer fits into the receive buffer, `send` took all of its bytes and they come in one piece, then a
-- request for a fragment returns that answer as the peer made it. It has sent one message, with the hash
-- of the torrent and the number, has heard the answer, and leaves what comes later.
pub request_fragment-send_tcp_msg :
    (serialize : TcpMessage → List ℕ) (parse : List ℕ → TcpMessage) (t : Torrent) (num taken : ℕ)
    (r : FragmentResponse) (s : Socket) (rest : List Incoming)
    → parse (serialize (fragment_message r)) ≡ fragment_message r
    → length (serialize (fragment_message r)) ≤ max_message_size
    → taken ≡ length (serialize (fragment_message r))
    → request_fragment t num (record s {
      incoming =
          read_message parse (send_tcp_msg serialize (some taken) (fragment_message r)).0 ∷ rest;
    })
      ≡ returns r (record s {
        state = recvd;
        last_msg = fragment_message r;
        outbox =
            record { code = cc_fragment_request; contents = fragment_request t.hashed num }
            ∷ s.outbox;
        incoming = rest;
      })
unfolding request_fragment read_message send_tcp_msg
request_fragment-send_tcp_msg serialize parse t num taken r s rest back fits all =
    let msg = fragment_message r in
    let whole : take taken (serialize msg) ≡ serialize msg =
      take-all (serialize msg) taken (omega arith) in
    rw (whole, take-all (serialize msg) max_message_size fits, back) refl
