-- ===== src/Tracker/Responder.antt =====
-- server/TrackerThread.cpp: the thread that serves one connection. The messages that a call sends
-- are its result; `sendTcpMsg` logs a failure and the handlers go on. The parser of protobuf is the
-- argument `parse`, `std::hash<std::string>` is `hash`, and `fuel` bounds the loop of `addTorrent`.
pub mod Replies
pub mod Frozen
pub mod Buffer
use p2p_network.Base.{
  ℕ, true, List, [], ◌∷◌, ◌++◌, ◌==◌, if◌then◌else◌, Text, Action, ◌>>=◌, ◌>>◌, pure, returns,
}
use p2p_network.Shared.{IpAddress}
use p2p_network.Shared.Message.{
  TcpCode, ok, cs_seedlist_request, cs_seedlist_response, cs_im_a_seed, cs_new_request,
  cs_new_response, f_fine, TcpMessage, Contents, IpPort, SeedlistResponse, no_seeds, unset,
  seedlist_response, new_response, seedlist_request_hash, im_a_seed_hash, new_request_torrent,
}
use p2p_network.Shared.Connection.{
  Connection, get_connected_ip, get_connected_port, Recv, received, ended, overwrite,
}
use p2p_network.Shared.Torrent.{Torrent, of_msg, gen_default_hash}
use p2p_network.Tracker.ClientInfo.{ClientInfo, new_client}
use p2p_network.Tracker.Database.{
  Database, get_clients_with, add_torrent_to_client, add_torrent_to_database, torrent_vector,
}

-- The address that the handlers take for that of the peer.
unfoldable pub connected_address : Connection → IpAddress
unfolding get_connected_ip get_connected_port
connected_address conn = record { ip = get_connected_ip conn; port = get_connected_port conn }

notify_first : List Torrent → ClientInfo → ℕ → Action Database (Unit {0})
notify_first [] client hash = pure tt
notify_first (t ∷ ts) client hash =
    let rest = notify_first ts client hash in
    if t.hashed == hash then add_torrent_to_client client t else rest

unfoldable pub handle_seed_notification : IpAddress → ℕ → Action Database (Unit {0})
unfolding notify_first
handle_seed_notification address hash = do
  ts ← torrent_vector
  notify_first ts (new_client true address) hash

-- Each client goes to the peers of its address family, in order; the lists of seeds stay empty.
add_peer : ClientInfo → SeedlistResponse → SeedlistResponse
add_peer c r =
    if c.is_ip_v4
    then record r { ipv4_peers = peer ∷ r.ipv4_peers }
    else record r { ipv6_peers = peer ∷ r.ipv6_peers }
  where
    peer : IpPort
    peer = record { ip = c.address.ip; port = c.address.port }

unfoldable pub seedlist_of : List ClientInfo → SeedlistResponse
unfolding add_peer
seedlist_of [] = no_seeds
seedlist_of (c ∷ cs) = add_peer c (seedlist_of cs)

unfoldable pub message : TcpCode → Contents → TcpMessage
message code contents = record { code = code; contents = contents }

module _ (hash : Text → ℕ) (fuel : ℕ) where
  -- The branch for `CS_NEW_REQUEST`: the hash that `addTorrent` returns is dropped.
  unfoldable pub handle_new_request : Connection → Contents → Action Database (List TcpMessage)
  unfolding connected_address message
  handle_new_request conn contents =
      let new = gen_default_hash hash (of_msg (new_request_torrent contents)) in
      do
        add_torrent_to_database hash fuel new >>= λ _. pure tt
        add_torrent_to_client (new_client true (connected_address conn)) new
        pure (message cs_new_response (new_response f_fine new.hashed) ∷ [])

  unfoldable pub dispatch : TcpCode → Connection → Contents → Action Database (List TcpMessage)
  unfolding handle_seed_notification seedlist_of message handle_new_request connected_address
  dispatch ok conn contents = pure (message ok unset ∷ [])
  dispatch cs_seedlist_request conn contents = do
    clients ← get_clients_with (seedlist_request_hash contents)
    pure (message cs_seedlist_response (seedlist_response (seedlist_of clients)) ∷ [])
  dispatch cs_new_request conn contents = handle_new_request conn contents
  dispatch cs_im_a_seed conn contents = do
    handle_seed_notification (connected_address conn) (im_a_seed_hash contents)
    pure []
  -- `CS_CLIENT_UNAVAILABLE` collects the addresses and hands them to `handleUnavailables`, which has
  -- no code; of any other message there is no branch.
  dispatch _ conn contents = pure []

  unfoldable pub respond : Connection → TcpMessage → Action Database (List TcpMessage)
  unfolding dispatch
  respond conn msg = dispatch msg.code conn msg.contents

  module _ (parse : List ℕ → TcpMessage) where
    -- The loop of `run`, over what the calls of `recv` give. The parser is given the whole buffer,
    -- `sizeof(buf)`, whatever the number of bytes that came.
    unfoldable pub serve : Connection → List ℕ → List Recv → Action Database (List TcpMessage)
    unfolding respond overwrite
    serve conn buf [] = pure []
    serve conn buf (ended ∷ rest) = pure []
    serve conn buf (received bytes ∷ rest) = do
      sent ← respond conn (parse (overwrite buf bytes))
      later ← serve conn (overwrite buf bytes) rest
      pure (sent ++ later)
