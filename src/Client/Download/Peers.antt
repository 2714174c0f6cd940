-- ===== src/Client/Download/Peers.antt =====
-- client/download/DownloadWorker.cpp with client/networking/ResponderThread.cpp: a worker whose peer is
-- a client of this program.
use p2p_network.Base.{◌≡◌, ◌≢◌, ◌∙◌, refl, ap, true, Bool, List, [], ◌∷◌, returns, arith}
use p2p_network.Shared.{opened, recvd}
use p2p_network.Shared.Message.{
  TcpMessage, cc_list_request, cc_list_response, list_request, list_response, f_frag_complete,
}
use p2p_network.Client.Responder.{respond_to_client}
use p2p_network.Client.Responder.Answers.{respond_to_client_lem}
use p2p_network.Client.Sockets.{
  Incoming, Connecting, was_read, start_socket, request_fragments_list,
}
use p2p_network.Client.Download.{Working, work, peer_ip, exchange_fragments, finish_work}
use p2p_network.Client.Download.Exchange.{work_exchange}

-- A worker that is connected to a client of this program, and reads what that client answers to its
-- list request, ends with no fragment asked for: the file and the disk are as they were, and the one
-- message that it sent is the list request.
pub work-respond_to_client :
    (c : Connecting) (s : Working) (rest : List Incoming) (msg : TcpMessage) (failed : Bool)
    → peer_ip s.worker.peer ≢ []
    → start_socket s.worker.peer.port c ≡ opened
    → respond_to_client
        (record { code = cc_list_request; contents = list_request s.worker.torrent.hashed })
      ≡ returns tt (msg ∷ [])
    → s.socket.incoming ≡ was_read failed msg ∷ rest
    → (s' : Working) × (work c s ≡ returns tt s')
      × (s'.worker.finished ≡ true)
      × (s'.file ≡ s.file)
      × (s'.manager ≡ s.manager)
      × (s'.socket.outbox
          ≡ record { code = cc_list_request; contents = list_request s.worker.torrent.hashed }
            ∷ s.socket.outbox)
unfolding exchange_fragments request_fragments_list finish_work
work-respond_to_client c s rest msg failed reachable open_ok replied coming =
    let asked : TcpMessage = record {
      code = cc_list_request;
      contents = list_request s.worker.torrent.hashed;
    } in
    let answer : TcpMessage = record {
      code = cc_list_response;
      contents = list_response (record {
        hashed_torrent = s.worker.torrent.hashed;
        file_code = f_frag_complete;
        fragments = [];
      });
    } in
    let known : respond_to_client asked ≡ returns tt (answer ∷ []) = respond_to_client_lem asked in
    let same : msg ≡ answer = ground (arith, known, replied) in
    let heard : s.socket.incoming ≡ was_read failed answer ∷ rest =
      coming ∙ ap (λ m. was_read failed m ∷ rest) same in
    (
      record s {
        worker = record s.worker { finished = true };
        socket = record s.socket {
          state = recvd;
          last_msg = answer;
          outbox = asked ∷ s.socket.outbox;
          incoming = rest;
        };
      },
      work_exchange c s reachable open_ok ∙ rw heard,
      refl,
      refl,
      refl,
      refl,
    )
