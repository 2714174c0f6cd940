-- ===== src/Client/Download/Exchange.antt =====
-- client/download/DownloadWorker.cpp: single exchanges of a worker with its peer.
use p2p_network.Base.{ℕ, ◌≡◌, ◌≢◌, ◌==◌, refl, false, Bool, List, [], ◌∷◌, any, Text, returns}
use p2p_network.Shared.{opened, recvd}
use p2p_network.Shared.Message.{
  cc_list_request, cc_fragment_request, list_request, fragment_request, cc_list_response,
  cc_fragment_response, FragmentResponse, ListResponse, list_response, fragment_response,
}
use p2p_network.Shared.Torrent.{Torrent}
use p2p_network.Client.Sockets.{
  Socket, Incoming, Connecting, was_read, start_socket, request_fragment, request_fragments_list,
}
use p2p_network.Client.Download.{Working, work, peer_ip, connect_to, exchange_fragments}

abbrev pub fragment_message : FragmentResponse → Incoming
fragment_message r =
    was_read false (record { code = cc_fragment_response; contents = fragment_response r })

abbrev pub list_message : ListResponse → Incoming
list_message l = was_read false (record { code = cc_list_response; contents = list_response l })

abbrev pub is_in : ℕ → List ℕ → Bool
is_in j ids = any (λ k. k == j) ids

pub request_lem :
    (t : Torrent) (id : ℕ) (r : FragmentResponse) (rest : List Incoming) (k : Socket)
    → k.incoming ≡ fragment_message r ∷ rest
    → (k' : Socket) × (request_fragment t id k ≡ returns r k') × (k'.incoming ≡ rest)
unfolding request_fragment
request_lem t id r rest k e = (
  record k {
    state = recvd;
    last_msg = record { code = cc_fragment_response; contents = fragment_response r };
    outbox =
        record { code = cc_fragment_request; contents = fragment_request t.hashed id } ∷ k.outbox;
    incoming = rest;
  },
  rw e,
  refl,
)

pub list_lem :
    (t : Torrent) (l : ListResponse) (rest : List Incoming) (k : Socket)
    → k.incoming ≡ list_message l ∷ rest
    → (k' : Socket) × (request_fragments_list t k ≡ returns l k') × (k'.incoming ≡ rest)
unfolding request_fragments_list
list_lem t l rest k e = (
  record k {
    state = recvd;
    last_msg = record { code = cc_list_response; contents = list_response l };
    outbox = record { code = cc_list_request; contents = list_request t.hashed } ∷ k.outbox;
    incoming = rest;
  },
  rw e,
  refl,
)

-- With an address and a connection, `work` is the exchange of fragments.
pub work_exchange :
    (c : Connecting) (s : Working)
    → peer_ip s.worker.peer ≢ []
    → start_socket s.worker.peer.port c ≡ opened
    → work c s ≡ exchange_fragments s
unfolding work
work_exchange c s reachable open_ok = exchange (peer_ip s.worker.peer) reachable
  where
    exchange : (ip : Text) → ip ≢ [] → connect_to c ip s ≡ exchange_fragments s
    exchange [] h = absurd (h refl)
    exchange (b ∷ bs) h = rw open_ok
