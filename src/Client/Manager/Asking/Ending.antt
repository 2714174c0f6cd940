-- ===== src/Client/Manager/Asking/Ending.antt =====
-- client/download/DownloadManager.cpp over the socket to the tracker: how the thread of a manager ends,
-- whatever the network does.
use p2p_network.Base.{
  ℕ, ◌≡◌, refl, Bool, true, false, ◌&&◌, Option, none, some, List, [], arith, if◌then◌else◌,
  returns, undefined,
}
use p2p_network.Shared.{SocketState, opened}
use p2p_network.Shared.Message.{SeedlistResponse}
use p2p_network.Client.Sockets.{Socket, Connecting, start_socket}
use p2p_network.Client.Sockets.Seedlist.{names_nobody, send_seedlist_request-cases}
use p2p_network.Client.Manager.{DownloadManager}
use p2p_network.Client.Manager.Peers.{start_manager_idle}
use p2p_network.Client.Manager.Asking.{start_asking, ask_tracker}

abbrev pub reached : SocketState → Bool
reached opened = true
reached _ = false

ask_tracker-cases :
    (state : SocketState) (hash : ℕ) (s : Socket)
    → (first : Option SeedlistResponse) × (s' : Socket) × (ask_tracker state hash s
        ≡ (if reached state && names_nobody s.incoming then undefined else returns first s'))
unfolding ask_tracker
ask_tracker-cases opened hash s =
    let (r, s', run) = send_seedlist_request-cases hash s in (some r, s', ground (arith, run))
ask_tracker-cases _ hash s = (none, s, refl)

-- The whole thread of a manager whose file knows no peer, and that has no worker, with whatever the
-- network does: it is undefined behaviour if the tracker is reached and its answer is a list of seeds
-- without an IPv4 peer. In every other case, of a tracker that is not reached, of errors, time-outs,
-- other messages and lists with peers, it ends with the file as it was, no worker started, and no
-- further round.
pub start_asking_lem :
    (port : ℕ) (c : Connecting) (socket : Socket) (progress : DownloadManager → DownloadManager)
    (rounds : List (Option SeedlistResponse)) (m : DownloadManager)
    → m.file.peers ≡ []
    → m.workers ≡ []
    → start_asking port c socket progress rounds m ≡ (
        if reached (start_socket port c) && names_nobody socket.incoming
        then undefined
        else returns tt m)
unfolding start_asking
start_asking_lem port c socket progress rounds m no_peers no_workers =
    let (first, s', run) = ask_tracker-cases (start_socket port c) m.file.torrent.hashed socket in
    ground (arith, run, start_manager_idle progress first rounds m no_peers no_workers)
