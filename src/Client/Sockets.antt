-- ===== src/Client/Sockets.antt =====
-- client/networking/BaseSocket.cpp, CSocket.cpp and SSocket.cpp: a connection to the tracker or to a
-- peer, over the results of the system calls. The argument `port` of the requests that carry one is
-- the global `GLOB_responder_port`.
pub mod Seedlist
pub mod Wire
use p2p_network.Base.{
  ℕ, Bool, ◌||◌, List, [], ◌∷◌, ltb, if◌then◌else◌, Text, Action, ◌>>=◌, ◌>>◌, pure, returns,
  undefined,
}
use p2p_network.Shared.{
  SocketState, error, cannot_connect, invalid_address, opened, timed_out, sent, recvd, Ips,
}
use p2p_network.Shared.Message.{
  TcpCode, connerror, ok, cs_seedlist_request, cs_seedlist_response, cs_client_unavailable,
  cs_im_a_seed, cs_new_request, cs_new_response, cc_list_request, cc_list_response,
  cc_fragment_request, cc_fragment_response, TcpMessage, Contents, unset, seedlist_request,
  client_unavailable, im_a_seed, new_request, list_request, fragment_request, SeedlistResponse,
  ListResponse, FragmentResponse, IpPort, no_seeds, no_fragments, no_fragment, seedlist_response_of,
  list_response_of, fragment_response_of, new_response_hash,
}
use p2p_network.Shared.Torrent.{Torrent, to_msg}

-- The results of the calls that `start` makes.
pub record Connecting : Type 0 where
  pub socket_made : Bool
  pub address_read : Bool
  pub connected : Bool

unfoldable pub start_socket : ℕ → Connecting → SocketState
start_socket port c =
    if ltb port 1024 || ltb 65535 port
    then invalid_address
    else if c.socket_made
    then (if c.address_read
        then (if c.connected then opened else cannot_connect)
        else invalid_address)
    else cannot_connect

-- What `receive` meets: an error or a time-out of `select`, or a `read`, with the message that the
-- parser makes of the buffer and the number of bytes, -1 for a `read` that failed.
pub data Incoming : Type 0 where
  select_error select_timeout : Incoming
  was_read : (failed : Bool) → TcpMessage → Incoming

-- The messages that were sent, the last message received, and what is to come; nothing comes after it.
pub record Socket : Type 0 where
  pub state : SocketState
  pub last_msg : TcpMessage
  pub outbox : List TcpMessage
  pub incoming : List Incoming

-- `send`: the state is SENT, also where `sendTcpMsg` failed.
unfoldable pub send : TcpMessage → Action Socket (Unit {0})
send m s = returns tt (record s { state = sent; outbox = m ∷ s.outbox })

taken_in : List Incoming → Socket → Socket
taken_in [] s = record s { state = timed_out }
taken_in (select_error ∷ rest) s = record s { state = error; incoming = rest }
taken_in (select_timeout ∷ rest) s = record s { state = timed_out; incoming = rest }
-- `handleRecvError` sets the state ERROR, which RECVD then covers.
taken_in (was_read failed msg ∷ rest) s = record s {
  state = recvd;
  last_msg = msg;
  incoming = rest;
}

unfoldable pub receive : Action Socket (Unit {0})
unfolding taken_in
receive s = returns tt (taken_in s.incoming s)

-- The message that came back, if the state says that one came.
answer : SocketState → TcpMessage → TcpMessage
answer recvd msg = msg
answer _ msg = record { code = connerror; contents = unset }

-- Each request sends its message, receives, and goes by the state and the code of the answer.
exchange : TcpCode → Contents → Action Socket TcpMessage
unfolding send receive answer
exchange code contents = do
  send (record { code = code; contents = contents })
  receive
  λ s. returns (answer s.state s.last_msg) s

unfoldable pub send_ok : Action Socket TcpCode
unfolding exchange
send_ok = do msg ← exchange ok unset; pure msg.code

hash_answered : TcpCode → Contents → ℕ
hash_answered cs_new_response contents = new_response_hash contents
hash_answered _ contents = 0

unfoldable pub send_new_torrent_request : ℕ → Torrent → Action Socket ℕ
unfolding exchange hash_answered
send_new_torrent_request port t = do
  msg ← exchange cs_new_request (new_request (to_msg t) port)
  pure (hash_answered msg.code msg.contents)

-- `ipv4peers().Get(0)` for the log: undefined behaviour if there is none.
first_logged : SeedlistResponse → List IpPort → Action Socket SeedlistResponse
first_logged r [] s = undefined
first_logged r (p ∷ ps) s = returns r s

seeds_answered : TcpCode → Contents → Action Socket SeedlistResponse
unfolding first_logged
seeds_answered cs_seedlist_response contents =
    first_logged (seedlist_response_of contents) (seedlist_response_of contents).ipv4_peers
seeds_answered _ contents = pure no_seeds

unfoldable pub send_seedlist_request : ℕ → Action Socket SeedlistResponse
unfolding exchange seeds_answered
send_seedlist_request hash = do
  msg ← exchange cs_seedlist_request (seedlist_request hash)
  seeds_answered msg.code msg.contents

-- `set_ipv4addresses(i, …)` on a message that has none yet is undefined behaviour, and the loop ends
-- only where the list is empty.
set_addresses : List Text → List Text → Action Socket (Unit {0})
set_addresses [] [] s = returns tt s
set_addresses _ _ s = undefined

unfoldable pub send_client_unavailable : Ips → Action Socket (Unit {0})
unfolding send set_addresses
send_client_unavailable ips = do
  set_addresses ips.ipv4s ips.ipv6s
  send (record { code = cs_client_unavailable; contents = client_unavailable [] [] })

unfoldable pub send_im_seed : ℕ → Torrent → Action Socket (Unit {0})
unfolding send
send_im_seed port t = send (record { code = cs_im_a_seed; contents = im_a_seed t.hashed port })

list_answered : TcpCode → Contents → ListResponse
list_answered cc_list_response contents = list_response_of contents
list_answered _ contents = no_fragments

unfoldable pub request_fragments_list : Torrent → Action Socket ListResponse
unfolding exchange list_answered
request_fragments_list t = do
  msg ← exchange cc_list_request (list_request t.hashed)
  pure (list_answered msg.code msg.contents)

fragment_answered : TcpCode → Contents → FragmentResponse
fragment_answered cc_fragment_response contents = fragment_response_of contents
fragment_answered _ contents = no_fragment

unfoldable pub request_fragment : Torrent → ℕ → Action Socket FragmentResponse
unfolding exchange fragment_answered
request_fragment t num = do
  msg ← exchange cc_fragment_request (fragment_request t.hashed num)
  pure (fragment_answered msg.code msg.contents)
