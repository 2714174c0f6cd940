-- ===== src/Tests/TrackerTests.antt =====
-- src/server at concrete states.
use p2p_network.Base.{ℕ, ◌≡◌, refl, true, false, List, [], ◌∷◌, length}
use p2p_network.Shared.{IpAddress}
use p2p_network.Shared.Message.{cs_seedlist_request, TcpMessage, seedlist_request, IpPort}
use p2p_network.Shared.Connection.{Connection, received, ended}
use p2p_network.Shared.Torrent.{Torrent, new_torrent}
use p2p_network.Tracker.ClientInfo.{ClientInfo, new_client, has_torrent}
use p2p_network.Tracker.Database.{Database, free}
use p2p_network.Tracker.Database.AddressMap.{add_or_update_client-Updates}
use p2p_network.Tracker.Responder.{serve, seedlist_of}
use p2p_network.Tracker.Responder.Frozen.{
  Frozen, fixed_replies, outcome_in, seeds_of, serve-fixed_replies,
}

abbrev song : Torrent
song = new_torrent 1 64 (b'a' ∷ [])

abbrev home : IpAddress
home = record { ip = 49 ∷ []; port = 4000 }

abbrev office : IpAddress
office = record { ip = 50 ∷ []; port = 4000 }

abbrev sharer : ClientInfo
sharer = record { is_ip_v4 = true; address = home; torrents = song ∷ [] }

abbrev one_client : Database
one_client = record { clients = sharer ∷ []; torrents = song ∷ []; mutex = free }

add_or_update_client-Updates_example :
    (add_or_update_client-Updates one_client (new_client false home) refl (refl, tt)).0.torrents
    ≡ song ∷ []
add_or_update_client-Updates_example =
    (add_or_update_client-Updates one_client (new_client false home) refl (refl, tt)).4

abbrev visitor : Connection
visitor = record { peer_ip = 51 ∷ []; peer_port = 59096 }

-- A parser that reads every buffer as a request for the seeds of torrent 1.
abbrev parse_request : List ℕ → TcpMessage
parse_request bytes = record { code = cs_seedlist_request; contents = seedlist_request 1 }

-- Somebody else says that he has the song, and asks then who has it.
serve-fixed_replies_example :
    (db : Database) × (serve length 1 parse_request visitor []
        (received (7 ∷ []) ∷ ended ∷ [])
        one_client
      ≡ outcome_in db
          (fixed_replies (seeds_of one_client) parse_request [] (received (7 ∷ []) ∷ ended ∷ [])))
    × Frozen one_client db
serve-fixed_replies_example =
    serve-fixed_replies length 0 parse_request visitor [] (received (7 ∷ []) ∷ ended ∷ [])
      one_client refl

-- The answer names the client that shares the song.
abbrev home_peer : IpPort
home_peer = record { ip = 49 ∷ []; port = 4000 }

song_seeds : (seeds_of one_client 1).ipv4_peers ≡ home_peer ∷ []
unfolding seedlist_of has_torrent
song_seeds = refl
