-- ===== src/Client/Download.antt =====
-- client/download/DownloadWorker.cpp: `work`, the run of one worker over the results of its calls,
-- while no other thread touches the file. (Client/Workers.antt has the workers interleaved.)
pub mod Fragments
pub mod Exchange
pub mod Run
pub mod Peers
pub mod Complete
pub mod Content
pub mod Hostile
pub mod Silent
pub mod Interrupted
use p2p_network.Base.{
  ℕ, Bool, true, false, List, [], ◌∷◌, if◌then◌else◌, Text, Outcome, Action, then_run, ◌>>=◌, ◌>>◌,
  pure, returns, throws, undefined, unfinished,
}
use p2p_network.Shared.{SocketState, opened}
use p2p_network.Shared.Message.{FileCode, f_error, FragmentResponse}
use p2p_network.Client.Segment.{PeerInfo, free, complete}
use p2p_network.Client.File.{File, try_to_set_segment_state_to_download, set_segment_state}
use p2p_network.Client.FileManager.{FileManager, store_segment_to_file}
use p2p_network.Client.Manager.{DownloadWorker}
use p2p_network.Client.Sockets.{
  Socket, Connecting, start_socket, request_fragments_list, request_fragment,
}

-- A worker with the file and the file manager behind its references, and `peerSocket`.
pub record Working : Type 0 where
  pub worker : DownloadWorker
  pub file : File
  pub manager : FileManager
  pub socket : Socket

zoomed {ℓ κ ν} : {S : Type ℓ} {T : Type κ} {A : Type ν} → (T → S) → Outcome T A → Outcome S A
zoomed put (returns a t) = returns a (put t)
zoomed put (throws t) = throws (put t)
zoomed put undefined = undefined
zoomed put unfinished = unfinished

in_file {ℓ} : {A : Type ℓ} → Action File A → Action Working A
unfolding zoomed
in_file act s = zoomed (λ f. record s { file = f }) (act s.file)

in_manager {ℓ} : {A : Type ℓ} → Action FileManager A → Action Working A
unfolding zoomed
in_manager act s = zoomed (λ m. record s { manager = m }) (act s.manager)

in_socket {ℓ} : {A : Type ℓ} → Action Socket A → Action Working A
unfolding zoomed
in_socket act s = zoomed (λ k. record s { socket = k }) (act s.socket)

abbrev pub is_error : FileCode → Bool
is_error f_error = true
is_error _ = false

-- Any answer but `F_ERROR` counts as the bytes of the segment.
unfoldable pub fetched : ℕ → FragmentResponse → Action Working (Unit {0})
unfolding in_file in_manager
fetched id r s =
    (if is_error r.file_code then in_file (set_segment_state id free) else (do
      in_manager (store_segment_to_file s.file.torrent.file_name id r.fragment)
      in_file (set_segment_state id complete)))
      s

unfoldable pub fetch : ℕ → Bool → Action Working (Unit {0})
unfolding in_socket fetched
fetch id false s = returns tt s
fetch id true s = then_run (in_socket (request_fragment s.worker.torrent id) s) (fetched id)

-- One round of the loop of `work`.
unfoldable pub work_fragment : ℕ → Action Working (Unit {0})
unfolding in_file fetch
work_fragment id = do claimed ← in_file (try_to_set_segment_state_to_download id); fetch id claimed

unfoldable pub work_fragments : List ℕ → Action Working (Unit {0})
unfolding work_fragment
work_fragments [] = pure tt
work_fragments (id ∷ ids) = do work_fragment id; work_fragments ids

finish_work : Action Working (Unit {0})
finish_work s = returns tt (record s { worker = record s.worker { finished = true } })

unfoldable pub peer_ip : PeerInfo → Text
peer_ip peer = first_of peer.ipv4_address
  where
    first_of : Text → Text
    first_of [] = peer.ipv6_address
    first_of (b ∷ bs) = b ∷ bs

pub exchange_fragments : Action Working (Unit {0})
unfolding in_socket work_fragments
exchange_fragments s =
    then_run (in_socket (request_fragments_list s.worker.torrent) s)
      (λ r. do work_fragments r.fragments; finish_work)

connect : SocketState → Action Working (Unit {0})
unfolding exchange_fragments
connect opened s = exchange_fragments s
connect _ s = finish_work s

connect_to : Connecting → Text → Action Working (Unit {0})
unfolding connect
connect_to c [] s = finish_work s
connect_to c (b ∷ bs) s = connect (start_socket s.worker.peer.port c) s

-- `work`, over the results of the calls that the start of its socket makes.
unfoldable pub work : Connecting → Action Working (Unit {0})
unfolding peer_ip connect_to finish_work exchange_fragments
work c s = connect_to c (peer_ip s.worker.peer) s
