-- ===== src/Tests/TransferTests.antt =====
-- src/client/networking, src/client/download and FileManager.cpp at concrete messages and files.
use p2p_network.Base.{
  inl, ℕ, ◌≡◌, ◌∷◌, [], refl, true, false, none, some, Text, text_eq, arith, returns, undefined,
  List, unfinished, replicate, length, ◌>>=◌, ◌*◌, ◌+◌, length-replicate, ◌≤◌,
}
use p2p_network.Shared.{opened}
use p2p_network.Shared.Message.{
  TcpMessage, cs_seedlist_request, seedlist_request, cs_seedlist_response, seedlist_response,
  no_seeds,
}
use p2p_network.Shared.Connection.{Connection, received}
use p2p_network.Tracker.Database.{Database, empty_database}
use p2p_network.Tracker.Responder.{serve, seedlist_of}
use p2p_network.Client.File.{blank_file}
use p2p_network.Client.Sockets.{Connecting, start_socket, Socket, was_read}
use p2p_network.Client.Manager.{DownloadManager}
use p2p_network.Client.Manager.Asking.{start_asking, start_asking-undefined}
use p2p_network.Client.FileManager.{
  FileManager, read_unlock, put, is_read_locked, is_write_locked, read_lock, read_lock_check,
  read_lock_open, write_lock, store_segment_to_file, get_segment_bytes,
}
use p2p_network.Client.FileManager.Storing.{IsUnlocked, get_segment-store_segment}
use p2p_network.Client.FileManager.Calls.{
  Call, get_bytes, store_segment, make_calls, read_lock-make_calls,
}
use p2p_network.Client.FileManager.Locking.{IsExclusive, locks-IsExclusive, read_lock_overtaken}

abbrev no_seeds_message : TcpMessage
no_seeds_message = record { code = cs_seedlist_response; contents = seedlist_response no_seeds }

abbrev open_socket : Socket
open_socket = record {
  state = opened;
  last_msg = no_seeds_message;
  outbox = [];
  incoming = was_read false no_seeds_message ∷ [];
}

abbrev visitor : Connection
visitor = record { peer_ip = b'1' ∷ []; peer_port = 2000 }

abbrev one_peer : DownloadManager
one_peer = record {
  file = record blank_file {
    peers = record { id = 1; ipv4_address = b'1' ∷ []; ipv6_address = []; port = 9 } ∷ [];
  };
  workers = [];
}

abbrev seen : List ℕ → TcpMessage
seen bytes = record {
  code = cs_seedlist_request;
  contents = seedlist_request one_peer.file.torrent.hashed;
}

abbrev online : Connecting
online = record { socket_made = true; address_read = true; connected = true }

online_opened : start_socket 2000 online ≡ opened
unfolding start_socket
online_opened = refl

start_asking-undefined_example :
    (msg : TcpMessage) × (tracker : Database) × (serve length 1 seen visitor []
        (received (1 ∷ []) ∷ [])
        empty_database
      ≡ returns (msg ∷ []) tracker)
    × (start_asking 2000 online
          (record open_socket { incoming = was_read false msg ∷ [] })
          (λ m. m)
          []
          one_peer
        ≡ undefined)
unfolding seedlist_of
start_asking-undefined_example =
    start_asking-undefined length 0 seen visitor [] (1 ∷ []) empty_database 2000 online open_socket
      false [] (λ m. m) [] one_peer refl refl refl online_opened

abbrev film_name : Text
film_name = b'f' ∷ []

-- A file of two segments, and nothing locked.
abbrev fresh : FileManager
fresh = record {
  read_locked = [];
  write_locked = [];
  files = put (λ _. none) film_name (replicate 16000 0);
}

film_there : fresh.files film_name ≡ some (replicate 16000 0)
unfolding text_eq
film_there = refl

fresh-IsExclusive : IsExclusive fresh
fresh-IsExclusive n h = refl

fresh_locked :
    write_lock film_name fresh ≡ returns tt (record fresh { write_locked = film_name ∷ [] })
unfolding write_lock
fresh_locked = refl

fits : 1 * 8000 + 8000 ≤ length (replicate {A = ℕ} 16000 0)
fits = omega (arith, length-replicate {A = ℕ} 16000 0)

locks-IsExclusive_example : IsExclusive (record fresh { write_locked = film_name ∷ [] })
locks-IsExclusive_example =
    (locks-IsExclusive film_name fresh (record fresh { write_locked = film_name ∷ [] }) true
        fresh-IsExclusive).1
      fresh_locked

read_lock_overtaken_example :
    (mid : FileManager) × (end : FileManager) × (read_lock_check film_name fresh ≡ returns tt fresh)
    × (write_lock film_name fresh ≡ returns tt mid)
    × (read_lock_open film_name mid ≡ returns true end)
    × (is_read_locked end film_name ≡ true)
    × (is_write_locked end film_name ≡ true)
read_lock_overtaken_example =
    read_lock_overtaken fresh film_name (replicate 16000 0) (refl, refl) film_there

-- The second segment is stored and the second segment read.
get_segment-store_segment_example :
    (stored : FileManager) × (fm' : FileManager) × (store_segment_to_file film_name 1
        (replicate 8000 1)
        fresh
      ≡ returns tt stored)
    × IsUnlocked stored film_name
    × ((read_lock film_name >>= λ _. get_segment_bytes film_name 1 8000) stored
        ≡ returns (some (replicate 8000 1)) fm')
get_segment-store_segment_example =
    get_segment-store_segment fresh film_name 1 1 (replicate 8000 1) (replicate 16000 0)
      (refl, refl) film_there (length-replicate {A = ℕ} 8000 1) (omega (arith, fits)) (inl refl)
      (omega (arith, length-replicate {A = ℕ} 16000 0))

abbrev read_film : FileManager
read_film = record fresh { read_locked = record { file_name = film_name; failed = false } ∷ [] }

film_read : read_lock film_name fresh ≡ returns true read_film
unfolding read_lock text_eq
film_read = refl

-- Another file is stored while the film is read.
abbrev later_calls : List Call
later_calls = get_bytes film_name 0 8000 ∷ store_segment (b'g' ∷ []) 0 [] ∷ []

abbrev after_calls : FileManager
after_calls = record read_film { write_locked = (b'g' ∷ []) ∷ [] }

calls_made : make_calls later_calls read_film ≡ returns tt after_calls
unfolding make_calls get_segment_bytes store_segment_to_file text_eq
calls_made = refl

read_lock-make_calls_example :
    (is_read_locked after_calls film_name ≡ true)
    × ((id : ℕ) (segment : Text)
        → store_segment_to_file film_name id segment after_calls ≡ unfinished)
    × (read_unlock film_name after_calls ≡ undefined)
read_lock-make_calls_example =
    read_lock-make_calls film_name fresh read_film after_calls later_calls film_read calls_made
