-- ===== src/Tests/DownloadTests.antt =====
-- DownloadWorker.cpp at a concrete file and peer.
use p2p_network.Base.{
  ℕ, zero, suc, ◌≡◌, ◌<◌, ◌≢◌, ◌∷◌, [], List, refl, true, false, none, some, Text, text_eq, arith,
  returns, undefined, replicate, length-replicate,
}
use p2p_network.Shared.{opened}
use p2p_network.Shared.Message.{
  TcpMessage, cc_list_request, cc_list_response, list_request, list_response, ListResponse,
  FragmentResponse, f_fine, f_frag_complete, no_fragment, no_fragments,
}
use p2p_network.Shared.Torrent.{Torrent, new_torrent}
use p2p_network.Client.Segment.{free, downloading}
use p2p_network.Client.File.{File, blank_file, is_complete, new_file}
use p2p_network.Client.FileManager.{put}
use p2p_network.Client.Responder.Answers.{respond_to_client_lem}
use p2p_network.Client.Sockets.{
  Socket, Incoming, was_read, select_timeout, Connecting, start_socket, request_fragment,
}
use p2p_network.Client.Download.{Working, work, work_fragment, peer_ip}
use p2p_network.Client.Download.Hostile.{work_fragment-undefined}
use p2p_network.Client.Download.Exchange.{list_message, fragment_message, is_in}
use p2p_network.Client.Download.Run.{Wanted, Downloaded}
use p2p_network.Client.Download.Interrupted.{work_interrupted}
use p2p_network.Client.Download.Content.{honest, honest_list, work-create_local_file}
use p2p_network.Client.FileManager.{create_local_file, FileManager}
use p2p_network.Client.Download.Peers.{work-respond_to_client}

abbrev film_name : Text
film_name = b'f' ∷ []

abbrev film : Torrent
film = new_torrent 9 16000 film_name

-- A file of two segments, the first of them taken.
abbrev taken : File
taken = record blank_file {
  torrent = film;
  segments =
      record { id = 0; offset = 0; state = downloading }
      ∷ record { id = 1; offset = 8000; state = free }
      ∷ [];
}

abbrev empty_film : List ℕ
empty_film = replicate 16000 0

abbrev one : ListResponse
one = record no_fragments { file_code = f_frag_complete; fragments = 1 ∷ [] }

abbrev sevens : ℕ → FragmentResponse
sevens i = record no_fragment { frag_num = i; file_code = f_fine; fragment = replicate 8000 7 }

abbrev working : List Incoming → Working
working incoming = record {
  worker = record {
    peer = record { id = 1; ipv4_address = b'1' ∷ []; ipv6_address = []; port = 2000 };
    torrent = film;
    finished = false;
  };
  file = taken;
  manager = record {
    read_locked = [];
    write_locked = [];
    files = put (λ _. none) film_name empty_film;
  };
  socket = record {
    state = opened;
    last_msg = record { code = cc_list_request; contents = list_request 0 };
    outbox = [];
    incoming = incoming;
  };
}

abbrev connected : Connecting
connected = record { socket_made = true; address_read = true; connected = true }

start_socket_test : start_socket 2000 connected ≡ opened
unfolding start_socket
start_socket_test = refl

peer_ip_test : (s : List Incoming) → peer_ip (working s).worker.peer ≢ []
unfolding peer_ip
peer_ip_test s e = ground arith

film_there : (working []).manager.files film_name ≡ some empty_film
unfolding text_eq
film_there = refl

-- Both segments are free; the peer answers for the second and then falls silent.
abbrev both_free : File
both_free = record taken {
  segments =
      record { id = 0; offset = 0; state = free }
      ∷ record { id = 1; offset = 8000; state = free }
      ∷ [];
}

second-Wanted : Wanted sevens 16000 both_free (1 ∷ [])
second-Wanted = (refl, omega arith, refl, length-replicate {A = ℕ} 8000 7, refl, tt)

abbrev both : ListResponse
both = record no_fragments { file_code = f_frag_complete; fragments = 1 ∷ 0 ∷ [] }

abbrev answered_once : List Incoming
answered_once = list_message both ∷ fragment_message (sevens 1) ∷ select_timeout ∷ []

abbrev abandoned : Working
abandoned = record (working answered_once) { file = both_free }

work_interrupted_example :
    (s' : Working) × (bytes' : List ℕ) × (work connected abandoned ≡ returns tt s')
    × (s'.worker.finished ≡ true)
    × Downloaded sevens 16000 film_name (1 ∷ []) empty_film abandoned s' bytes'
work_interrupted_example =
    work_interrupted sevens 16000 connected both (1 ∷ []) (0 ∷ []) (select_timeout ∷ []) film_name
      empty_film abandoned (peer_ip_test answered_once) start_socket_test refl refl (refl, tt)
      second-Wanted ((λ e. cc), tt) refl (refl, refl) film_there
      (omega (arith, length-replicate {A = ℕ} 16000 0)) (omega arith)

-- An answer with no bytes at all.
abbrev empty_answer : FragmentResponse
empty_answer = record no_fragment { frag_num = 1; file_code = f_fine; fragment = [] }

asked_second :
    (k : Socket) × (request_fragment film 1 (working (fragment_message empty_answer ∷ [])).socket
      ≡ returns empty_answer k)
unfolding request_fragment
asked_second = (_, refl)

work_fragment-undefined_example :
    work_fragment 1 (working (fragment_message empty_answer ∷ [])) ≡ undefined
work_fragment-undefined_example =
    (work_fragment-undefined 1 (working (fragment_message empty_answer ∷ [])) empty_answer
        asked_second.0 empty_film asked_second.1 refl (refl, refl) film_there (omega arith)).1
      refl (omega arith)

abbrev nothing_listed : TcpMessage
nothing_listed = record {
  code = cc_list_response;
  contents =
      list_response (record { hashed_torrent = 9; file_code = f_frag_complete; fragments = [] });
}

abbrev asking : Working
asking = working (was_read false nothing_listed ∷ [])

work-respond_to_client_example :
    (s' : Working) × (work connected asking ≡ returns tt s')
    × (s'.worker.finished ≡ true)
    × (s'.file ≡ asking.file)
    × (s'.manager ≡ asking.manager)
    × (s'.socket.outbox
        ≡ record { code = cc_list_request; contents = list_request 9 } ∷ asking.socket.outbox)
work-respond_to_client_example =
    work-respond_to_client connected asking [] nothing_listed false
      (peer_ip_test (was_read false nothing_listed ∷ [])) start_socket_test
      (respond_to_client_lem (record { code = cc_list_request; contents = list_request 9 })) refl

abbrev sixes : List ℕ
sixes = replicate 16000 6

abbrev nothing_locked : FileManager
nothing_locked = record { read_locked = []; write_locked = []; files = λ _. none }

-- A torrent whose second segment has 1000 bytes.
abbrev cut_film : Torrent
cut_film = new_torrent 9 9000 film_name

-- The two segments of the film are listed the second first.
abbrev honest_peer : Socket
honest_peer = record {
  state = opened;
  last_msg = nothing_listed;
  outbox = [];
  incoming =
      list_message (honest_list cut_film (1 ∷ 0 ∷ []))
      ∷ fragment_message (honest cut_film sixes 1)
      ∷ fragment_message (honest cut_film sixes 0)
      ∷ [];
}

both_listed : (j : ℕ) → j < 2 → is_in j (1 ∷ 0 ∷ []) ≡ true
both_listed zero h = refl
both_listed (suc zero) h = refl
both_listed (suc (suc j)) h = absurd (omega arith)

work-create_local_file_example :
    (made : FileManager) × (s' : Working) × (f : File) × (create_local_file true cut_film
        nothing_locked
      ≡ returns tt made)
    × (work connected (record {
      worker = record { peer = asking.worker.peer; torrent = cut_film; finished = false };
      file = new_file cut_film film_name;
      manager = made;
      socket = honest_peer;
    })
        ≡ returns tt s')
    × (s'.manager.files film_name ≡ some sixes)
    × (is_complete s'.file ≡ returns true f)
work-create_local_file_example =
    work-create_local_file cut_film film_name 2 (omega arith, omega arith) (omega arith) sixes
      (length-replicate {A = ℕ} 16000 6) (1 ∷ 0 ∷ []) connected asking.worker.peer nothing_locked
      honest_peer (omega arith, refl, (omega arith, refl, tt)) both_listed
      (peer_ip_test (was_read false nothing_listed ∷ [])) start_socket_test refl (refl, refl)
