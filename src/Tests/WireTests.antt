-- ===== src/Tests/WireTests.antt =====
-- sendTcpMsg, the receive buffers, the thread of a manager and the repository's own test at concrete
-- messages, networks and disks.
use p2p_network.Base.{
  any, if◌then◌else◌, ℕ, ◌≡◌, refl, true, false, none, some, List, [], ◌∷◌, arith, length, map,
  returns, undefined,
}
use p2p_network.Shared.{opened, recvd}
use p2p_network.Shared.Message.{
  cc_list_request, list_request, TcpMessage, ok, unset, cs_seedlist_response, seedlist_response,
  no_seeds, cc_fragment_request, fragment_request, FragmentResponse, f_frag_complete,
}
use p2p_network.Shared.Disk.{Disk}
use p2p_network.Shared.Connection.{Connection, Recv, received, ended}
use p2p_network.Shared.Torrent.{new_torrent}
use p2p_network.Shared.Wire.{send_tcp_msg, SeesNewest}
use p2p_network.Tracker.Responder.{serve}
use p2p_network.Tracker.Responder.Buffer.{respond_all, serve-SeesNewest}
use p2p_network.Client.Responder.{run_responder}
use p2p_network.Client.Responder.Silence.{carries_segment}
use p2p_network.Client.Responder.Whole.{chunks_of, asks_blank, all_answers, run_responder-fixed}
use p2p_network.Client.File.{blank_file}
use p2p_network.Client.LocalDatabase.SaveRead.{database_save_read, database_save_read-never}
use p2p_network.Client.Sockets.{Connecting, start_socket, Socket, was_read, request_fragment}
use p2p_network.Client.Sockets.Wire.{fragment_message, read_message, request_fragment-send_tcp_msg}
use p2p_network.Client.Manager.{DownloadManager}
use p2p_network.Client.Manager.Asking.{start_asking}
use p2p_network.Client.Manager.Asking.Ending.{start_asking_lem}

-- Every file can be written, and none is there.
abbrev blank_disk : Disk
blank_disk = record { files = λ _. none; writable = λ _. true }

database_save_read-never_example : database_save_read blank_disk ≡ undefined
database_save_read-never_example = (database_save_read-never blank_disk).1 refl

abbrev online : Connecting
online = record { socket_made = true; address_read = true; connected = true }

-- A list of seeds with one peer at an IPv4 address.
abbrev one_seed : TcpMessage
one_seed = record {
  code = cs_seedlist_response;
  contents =
      seedlist_response
        (record no_seeds { ipv4_peers = record { ip = 49 ∷ []; port = 2000 } ∷ [] });
}

abbrev to_tracker : Socket
to_tracker = record {
  state = opened;
  last_msg = record { code = ok; contents = unset };
  outbox = [];
  incoming = was_read false one_seed ∷ [];
}

abbrev idle : DownloadManager
idle = record { file = blank_file; workers = [] }

start_asking_lem_example :
    start_asking 2000 online to_tracker (λ m. m) (none ∷ []) idle ≡ returns tt idle
unfolding start_socket
start_asking_lem_example =
    start_asking_lem 2000 online to_tracker (λ m. m) (none ∷ []) idle refl refl

-- The second message is shorter than the first and leaves a byte of it behind.
abbrev visitor : Connection
visitor = record { peer_ip = 49 ∷ []; peer_port = 4000 }

abbrev two_chunks : List (List ℕ)
two_chunks = (1 ∷ 2 ∷ []) ∷ (3 ∷ []) ∷ []

abbrev any_ok : List ℕ → TcpMessage
any_ok bytes = record { code = ok; contents = unset }

serve-SeesNewest_example :
    (bytes : List (List ℕ)) × SeesNewest (9 ∷ 9 ∷ 9 ∷ []) [] two_chunks bytes
    × (serve length 1 any_ok visitor (9 ∷ 9 ∷ 9 ∷ []) (map received two_chunks)
        ≡ respond_all length 1 visitor (map any_ok bytes))
serve-SeesNewest_example = serve-SeesNewest length 1 any_ok visitor (9 ∷ 9 ∷ 9 ∷ []) two_chunks

abbrev third : FragmentResponse
third = record { hashed_torrent = 5; frag_num = 3; file_code = f_frag_complete; fragment = 8 ∷ [] }

abbrev wire_bytes : TcpMessage → List ℕ
wire_bytes m = 1 ∷ 3 ∷ 8 ∷ []

request_fragment-send_tcp_msg_example :
    request_fragment (new_torrent 5 24000 []) 3 (record to_tracker {
      incoming =
          read_message
            (λ _. fragment_message third)
            (send_tcp_msg wire_bytes (some 3) (fragment_message third)).0
          ∷ [];
    })
    ≡ returns third (record to_tracker {
      state = recvd;
      last_msg = fragment_message third;
      outbox = record { code = cc_fragment_request; contents = fragment_request 5 3 } ∷ [];
      incoming = [];
    })
request_fragment-send_tcp_msg_example =
    request_fragment-send_tcp_msg wire_bytes (λ _. fragment_message third) (new_torrent 5 24000 [])
      3 3 third to_tracker [] refl (omega arith) refl

-- A peer that asks for the list of the torrent with the hash 5, twice, and goes.
abbrev list_asked : List ℕ → TcpMessage
list_asked bytes = record { code = cc_list_request; contents = list_request 5 }

abbrev asked_twice : List Recv
asked_twice = received (1 ∷ 2 ∷ []) ∷ received (1 ∷ []) ∷ ended ∷ []

run_responder-fixed_example :
    (bytes : List (List ℕ)) × SeesNewest [] [] (chunks_of asked_twice) bytes
    × (run_responder list_asked [] asked_twice [] ≡ (
        if any (λ m. asks_blank m.code m.contents) (map list_asked bytes)
        then undefined
        else returns tt (all_answers (map list_asked bytes))))
    × (any carries_segment (all_answers (map list_asked bytes)) ≡ false)
run_responder-fixed_example = run_responder-fixed list_asked [] asked_twice
