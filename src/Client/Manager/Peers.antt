-- ===== src/Client/Manager/Peers.antt =====
-- client/download/DownloadManager.cpp: which peers and workers a manager comes to have.
use p2p_network.Base.{
  ◌≡◌, refl, not, Option, none, some, List, [], ◌∷◌, arith, map, any, returns, undefined,
  if◌then◌else◌,
}
use p2p_network.Shared.Message.{IpPort, SeedlistResponse}
use p2p_network.Client.Segment.{PeerInfo}
use p2p_network.Client.File.{File}
use p2p_network.Client.Manager.{
  DownloadManager, add_known, file_contains_ipv4, file_contains_ipv6, ipv4_peer, ipv6_peer,
  add_peers_to_file, workers_work_with_peer, start_missing, start_workers_for_new_peers,
  update_peers_and_start_workers, manage_workers, start_manager, check_if_workers_work,
}

add_known-none :
    (is : List IpPort) (f : File)
    → f.peers ≡ []
    → (add_known file_contains_ipv4 ipv4_peer is f ≡ returns tt f)
      × (add_known file_contains_ipv6 ipv6_peer is f ≡ returns tt f)
unfolding add_known file_contains_ipv4 file_contains_ipv6
add_known-none [] f h = (refl, refl)
add_known-none (i ∷ is) f h = ground (arith, add_known-none is f h)

add_peers_to_file-none :
    (r : SeedlistResponse) (f : File) → f.peers ≡ [] → add_peers_to_file r f ≡ returns tt f
unfolding add_peers_to_file
add_peers_to_file-none r f h = ground (
  arith,
  add_known-none r.ipv6_peers f h,
  add_known-none r.ipv6_seeds f h,
  add_known-none r.ipv4_seeds f h,
  add_known-none r.ipv4_peers f h,
)

update-none :
    (r : Option SeedlistResponse) (m : DownloadManager)
    → m.file.peers ≡ []
    → update_peers_and_start_workers r m ≡ returns tt m
unfolding update_peers_and_start_workers start_workers_for_new_peers
update-none none m h = refl
update-none (some r) m h = ground (arith, add_peers_to_file-none r m.file h)

manage-none :
    (progress : DownloadManager → DownloadManager) (rounds : List (Option SeedlistResponse))
    (m : DownloadManager)
    → m.workers ≡ []
    → manage_workers progress rounds m ≡ returns tt m
unfolding manage_workers check_if_workers_work
manage-none progress [] m h = ground arith
manage-none progress (r ∷ rs) m h = ground arith

-- A manager of a file that knows no peer yet, with no worker, finds none: whatever the tracker
-- answers, at first and in later rounds, its thread ends at once with the file as it was, no peer
-- added and no worker started.
pub start_manager_idle :
    (progress : DownloadManager → DownloadManager) (first : Option SeedlistResponse)
    (rounds : List (Option SeedlistResponse)) (m : DownloadManager)
    → m.file.peers ≡ []
    → m.workers ≡ []
    → start_manager progress first rounds m ≡ returns tt m
unfolding start_manager
start_manager_idle progress first rounds m no_peers no_workers =
    rw (update-none first m no_peers, manage-none progress rounds m no_workers)
      (unfold check_if_workers_work in ground arith)

abbrev pub peers_of : DownloadManager → List PeerInfo
peers_of m = map (λ w. w.peer) m.workers

start_missing-covered :
    (mine ps : List PeerInfo) (m : DownloadManager)
    → start_missing mine ps m
      ≡ (if any (λ p. not (workers_work_with_peer mine p)) ps then undefined else returns tt m)
unfolding start_missing
start_missing-covered mine [] m = refl
start_missing-covered mine (p ∷ ps) m = ground (arith, start_missing-covered mine ps m)

-- Starting workers for the peers of a file leaves the manager as it is if each peer shares an address,
-- be it the empty one, with the peer of some worker; else the constructor of the first worker reads
-- a pointer that it has moved from, which is undefined behaviour.
pub start_workers_for_new_peers_lem :
    (m : DownloadManager)
    → start_workers_for_new_peers m ≡ (
        if any (λ p. not (workers_work_with_peer (peers_of m) p)) m.file.peers
        then undefined
        else returns tt m)
unfolding start_workers_for_new_peers
start_workers_for_new_peers_lem m = start_missing-covered (peers_of m) m.file.peers m
