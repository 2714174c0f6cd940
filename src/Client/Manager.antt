-- ===== src/Client/Manager.antt =====
-- client/download/DownloadManager.cpp and DownloadWorker.cpp: the thread that looks for peers of one
-- file and starts a worker for each.
pub mod Peers
pub mod Asking
use p2p_network.Base.{
  ℕ, ◌+◌, Bool, false, not, ◌||◌, Option, none, some, List, [], ◌∷◌, ◌++◌, if◌then◌else◌, any, map,
  length, Text, text_eq, Outcome, Action, then_run, ◌>>=◌, ◌>>◌, pure, returns, undefined,
  unfinished,
}
use p2p_network.Shared.Message.{IpPort, SeedlistResponse}
use p2p_network.Shared.Torrent.{Torrent}
use p2p_network.Client.Segment.{PeerInfo}
use p2p_network.Client.File.{File, add_peer, is_complete}

pub record DownloadWorker : Type 0 where
  pub peer : PeerInfo
  pub torrent : Torrent
  pub finished : Bool

pub record DownloadManager : Type 0 where
  pub file : File
  pub workers : List DownloadWorker

-- `find_if` over two copies of the file's peers, compared with the end of a third. Without peers all
-- of these iterators are null and the search finds nothing; else it leaves the first copy, which is
-- undefined behaviour.
find_in_copies : (PeerInfo → Bool) → List PeerInfo → Action File Bool
find_in_copies p [] f = returns false f
find_in_copies p (q ∷ qs) f = undefined

unfoldable pub file_contains_ipv4 : Text → Action File Bool
unfolding find_in_copies
file_contains_ipv4 address f = find_in_copies (λ x. text_eq x.ipv4_address address) f.peers f

unfoldable pub file_contains_ipv6 : Text → Action File Bool
unfolding find_in_copies
file_contains_ipv6 address f = find_in_copies (λ x. text_eq x.ipv6_address address) f.peers f

-- A peer is added if the file does contain its address.
add_known :
    (Text → Action File Bool) → (ℕ → IpPort → PeerInfo) → List IpPort → Action File (Unit {0})
add_known contains make [] f = returns tt f
add_known contains make (i ∷ is) f = then_run (contains i.ip f) λ known g.
    add_known contains make is (if known then add_peer g (make (length g.peers + 1) i) else g)

ipv4_peer : ℕ → IpPort → PeerInfo
ipv4_peer id i = record { id = id; ipv4_address = i.ip; ipv6_address = []; port = i.port }

ipv6_peer : ℕ → IpPort → PeerInfo
ipv6_peer id i = record { id = id; ipv4_address = []; ipv6_address = i.ip; port = i.port }

unfoldable pub add_peers_to_file : SeedlistResponse → Action File (Unit {0})
unfolding add_known ipv4_peer ipv6_peer file_contains_ipv4 file_contains_ipv6
add_peers_to_file r = do
  add_known file_contains_ipv6 ipv6_peer r.ipv6_peers
  add_known file_contains_ipv6 ipv6_peer r.ipv6_seeds
  add_known file_contains_ipv4 ipv4_peer r.ipv4_seeds
  add_known file_contains_ipv4 ipv4_peer r.ipv4_peers

-- A worker counts for a peer if one of the two addresses is the same, an empty one too.
unfoldable pub workers_work_with_peer : List PeerInfo → PeerInfo → Bool
workers_work_with_peer mine peer =
    any (λ x. text_eq x.ipv6_address peer.ipv6_address || text_eq x.ipv4_address peer.ipv4_address)
      mine

-- The torrent of a file behind a shared pointer, which may be null.
torrent_behind : Option File → Option Torrent
torrent_behind none = none
torrent_behind (some f) = some f.torrent

-- What `std::move` leaves of a shared pointer.
moved_from : Option File → Option File
moved_from pointer = none

made : PeerInfo → Option Torrent → Option DownloadWorker
made peer none = none
made peer (some t) = some (record { peer = peer; torrent = t; finished = false })

-- The constructor moves `file1` into `file` and then initialises `torrent` from `file1`.
unfoldable pub new_worker : Option File → PeerInfo → Option DownloadWorker
unfolding torrent_behind moved_from made
new_worker file1 peer = made peer (torrent_behind (moved_from file1))

started : Option DownloadWorker → Action DownloadManager (Unit {0})
started none m = undefined
started (some w) m = returns tt (record m { workers = m.workers ++ w ∷ [] })

unfoldable pub start_worker_thread_for_peer : PeerInfo → Action DownloadManager (Unit {0})
unfolding started new_worker
start_worker_thread_for_peer peer m = started (new_worker (some m.file) peer) m

start_missing : List PeerInfo → List PeerInfo → Action DownloadManager (Unit {0})
unfolding start_worker_thread_for_peer
start_missing mine [] = pure tt
start_missing mine (p ∷ ps) = do
  if workers_work_with_peer mine p then pure tt else start_worker_thread_for_peer p
  start_missing mine ps

-- The peers of the workers are collected once, before the loop.
unfoldable pub start_workers_for_new_peers : Action DownloadManager (Unit {0})
unfolding start_missing workers_work_with_peer
start_workers_for_new_peers m = start_missing (map (λ w. w.peer) m.workers) m.file.peers m

on_file {ℓ} : {A : Type ℓ} → Outcome File A → DownloadManager → Outcome DownloadManager A
on_file (returns a f) m = returns a (record m { file = f })
on_file _ m = undefined

-- `none` where the tracker cannot be reached.
unfoldable pub update_peers_and_start_workers :
    Option SeedlistResponse → Action DownloadManager (Unit {0})
unfolding on_file start_workers_for_new_peers add_peers_to_file
update_peers_and_start_workers none m = returns tt m
update_peers_and_start_workers (some r) m =
    then_run (on_file (add_peers_to_file r m.file) m) (λ _ m'. start_workers_for_new_peers m')

unfoldable pub check_if_workers_work : List DownloadWorker → Bool
check_if_workers_work ws = any (λ w. not w.finished) ws

-- The loop of `manageWorkers` over the answers of the tracker, one for each round; between two rounds
-- the workers change what `progress` says.
unfoldable pub manage_workers :
    (DownloadManager → DownloadManager)
    → List (Option SeedlistResponse)
    → Action DownloadManager (Unit {0})
unfolding on_file check_if_workers_work update_peers_and_start_workers
manage_workers progress [] m = if check_if_workers_work m.workers then unfinished else returns tt m
manage_workers progress (r ∷ rs) m =
    if check_if_workers_work m.workers
    then then_run (on_file (is_complete m.file) m) (λ done m'.
      if done
      then returns tt m'
      else then_run (update_peers_and_start_workers r m')
          (λ _ m''. manage_workers progress rs (progress m'')))
    else returns tt m

-- The threads are joined: workers that have not finished yet do so in the meantime, if `progress` says
-- so, and else are waited for without end.
unfoldable pub join_workers :
    (DownloadManager → DownloadManager) → Action DownloadManager (Unit {0})
unfolding check_if_workers_work
join_workers progress m =
    if check_if_workers_work m.workers
    then (if check_if_workers_work (progress m).workers
        then unfinished
        else returns tt (progress m))
    else returns tt m

-- The thread of `start_manager`.
unfoldable pub start_manager :
    (DownloadManager → DownloadManager)
    → Option SeedlistResponse
    → List (Option SeedlistResponse)
    → Action DownloadManager (Unit {0})
unfolding manage_workers update_peers_and_start_workers join_workers
start_manager progress first rounds = do
  update_peers_and_start_workers first
  manage_workers progress rounds
  join_workers progress
