-- ===== src/Client/Manager/Asking.antt =====
-- client/download/DownloadManager.cpp with SSocket.cpp and server/TrackerThread.cpp: a manager that asks
-- the tracker over its socket.
pub mod Ending
use p2p_network.Base.{
  ℕ, suc, ◌≡◌, ◌∙◌, refl, Bool, Option, none, some, List, [], ◌∷◌, Text, Outcome, Action, ◌>>=◌,
  pure, returns, throws, undefined, unfinished,
}
use p2p_network.Shared.{SocketState, opened}
use p2p_network.Shared.Message.{
  cs_seedlist_request, cs_seedlist_response, TcpMessage, SeedlistResponse, seedlist_request,
  seedlist_response,
}
use p2p_network.Shared.Connection.{Connection, received, overwrite}
use p2p_network.Tracker.Database.{Database, free}
use p2p_network.Tracker.Responder.{message, serve}
use p2p_network.Tracker.Responder.Frozen.{seeds_of, serve-fixed_replies}
use p2p_network.Client.Sockets.{
  Socket, Incoming, was_read, Connecting, start_socket, send_seedlist_request,
}
use p2p_network.Client.Sockets.Seedlist.{send_seedlist_request-undefined}
use p2p_network.Client.Manager.{DownloadManager, start_manager}

-- The first half of `updatePeersAndStartWorkers`: without a connection there is no answer.
unfoldable pub ask_tracker : SocketState → ℕ → Action Socket (Option SeedlistResponse)
ask_tracker opened hash = do r ← send_seedlist_request hash; pure (some r)
ask_tracker _ hash = pure none

with_answer :
    Outcome Socket (Option SeedlistResponse)
    → (Option SeedlistResponse → Action DownloadManager (Unit {0}))
    → Action DownloadManager (Unit {0})
with_answer (returns r socket) next m = next r m
-- An exception is caught at the end of the thread.
with_answer (throws socket) next m = returns tt m
with_answer undefined next m = undefined
with_answer unfinished next m = unfinished

-- The thread of `start_manager` with its first question to the tracker at the port `port`.
unfoldable pub start_asking :
    ℕ
    → Connecting
    → Socket
    → (DownloadManager → DownloadManager)
    → List (Option SeedlistResponse)
    → Action DownloadManager (Unit {0})
unfolding ask_tracker with_answer
start_asking port c socket progress rounds m =
    with_answer (ask_tracker (start_socket port c) m.file.torrent.hashed socket)
      (λ first. start_manager progress first rounds) m

-- A client that starts a download and reaches a tracker of this program meets undefined behaviour, if no
-- client of the tracker shares the torrent over IPv4: it gets the tracker's answer to its request for the
-- seeds of the torrent, and reads an address that is not in it.
pub start_asking-undefined :
    (hash_function : Text → ℕ) (fuel : ℕ) (parse : List ℕ → TcpMessage) (conn : Connection)
    (buf bytes : List ℕ) (tracker : Database) (port : ℕ) (c : Connecting) (socket : Socket)
    (failed : Bool) (rest : List Incoming) (progress : DownloadManager → DownloadManager)
    (rounds : List (Option SeedlistResponse)) (m : DownloadManager)
    → tracker.mutex ≡ free
    → (seeds_of tracker m.file.torrent.hashed).ipv4_peers ≡ []
    → parse (overwrite buf bytes)
      ≡ record { code = cs_seedlist_request; contents = seedlist_request m.file.torrent.hashed }
    → start_socket port c ≡ opened
    → (msg : TcpMessage) × (tracker' : Database) × (serve hash_function
          (suc fuel)
          parse
          conn
          buf
          (received bytes ∷ [])
          tracker
        ≡ returns (msg ∷ []) tracker')
      × (start_asking port c
            (record socket { incoming = was_read failed msg ∷ rest })
            progress
            rounds
            m
          ≡ undefined)
unfolding message start_asking
start_asking-undefined hash_function fuel parse conn buf bytes tracker port c socket failed rest
      progress rounds m unlocked nobody asked open_ok =
    let hash : ℕ = m.file.torrent.hashed in
    let msg : TcpMessage =
      message cs_seedlist_response (seedlist_response (seeds_of tracker hash)) in
    let read : Socket = record socket { incoming = was_read failed msg ∷ rest } in
    let (tracker', run, _) =
      serve-fixed_replies hash_function fuel parse conn buf (received bytes ∷ []) tracker
        unlocked in
    (
      msg,
      tracker',
      run ∙ rw asked refl,
      rw
          (
            open_ok,
            (send_seedlist_request-undefined hash read).1 (failed, msg, rest, refl, refl, nobody),
          )
          refl,
    )
