-- ===== src/Client/Download/Complete.antt =====
-- client/download/DownloadWorker.cpp with File.cpp: when one worker downloads the whole file.
use p2p_network.Base.{
  ℕ, ◌^◌, ◌<◌, ◌≡◌, ◌≢◌, ◌∙◌, true, none, some, List, [], ◌∷◌, arith, map, length, Text, returns,
  Bool-cases, inl, inr, get_elem?-of_lt, if◌then◌else◌,
}
use p2p_network.Shared.{opened}
use p2p_network.Shared.Message.{FragmentResponse, ListResponse}
use p2p_network.Client.Segment.{complete}
use p2p_network.Client.File.{File, is_complete, all_complete}
use p2p_network.Client.File.States.{state_at, all_complete_of_states}
use p2p_network.Client.FileManager.Storing.{IsUnlocked}
use p2p_network.Client.Sockets.{Connecting, start_socket}
use p2p_network.Client.Download.{Working, work, peer_ip}
use p2p_network.Client.Download.Exchange.{list_message, fragment_message, is_in}
use p2p_network.Client.Download.Run.{Wanted, work_lem}

pub all_states :
    (f f' : File) (is : List ℕ)
    → ((j : ℕ) → state_at f j ≢ none → is_in j is ≡ true)
    → ((j : ℕ) → state_at f' j ≡ (if is_in j is then some complete else state_at f j))
    → (j : ℕ) → state_at f' j ≢ none
    → state_at f' j ≡ some complete
all_states f f' is listed states j there = elim (Bool-cases (is_in j is)) [
  | inl named ↦ ground (arith, states j)
  | inr other ↦
      let kept : state_at f' j ≡ state_at f j = ground (arith, states j) in
      let named : is_in j is ≡ true = listed j (λ e. there (kept ∙ e)) in absurd (ground arith)
]

all_complete_of_there :
    (f : File)
    → ((j : ℕ) → state_at f j ≢ none → state_at f j ≡ some complete)
    → all_complete f.segments ≡ true
all_complete_of_there f h = all_complete_of_states f.segments (λ i lt.
    let (segment, found) = get_elem?-of_lt f.segments i lt in
    let there : state_at f i ≡ some segment.state = ground (arith, found) in
    h i (λ e. ground (arith, there)))

pub is_complete_of_states :
    (f : File)
    → ((j : ℕ) → state_at f j ≢ none → state_at f j ≡ some complete)
    → (f' : File) × (is_complete f ≡ returns true f')
unfolding is_complete
is_complete_of_states f h =
    let done : all_complete f.segments ≡ true = all_complete_of_there f h in
    elim (Bool-cases f.is_completed) [
      | inl flagged ↦ (f, ground (arith, flagged))
      | inr unflagged ↦
          (record f { is_completed = all_complete f.segments }, ground (arith, unflagged, done))
    ]

-- A worker whose peer lists every segment of the file downloads it: if the file is on disk, unlocked
-- and shorter than 2 GiB, the peer has an address and can be reached, and each number that it lists
-- is `Wanted`, then the worker runs to its end, and after that `isComplete` says true.
pub work-is_complete :
    (reply : ℕ → FragmentResponse) (c : Connecting) (l : ListResponse) (name : Text)
    (bytes : List ℕ) (s : Working)
    → peer_ip s.worker.peer ≢ []
    → start_socket s.worker.peer.port c ≡ opened
    → s.socket.incoming ≡ list_message l ∷ map (λ i. fragment_message (reply i)) l.fragments
    → Wanted reply (length bytes) s.file l.fragments
    → ((j : ℕ) → state_at s.file j ≢ none → is_in j l.fragments ≡ true)
    → s.file.torrent.file_name ≡ name
    → IsUnlocked s.manager name
    → s.manager.files name ≡ some bytes
    → length bytes < 2 ^ 31
    → (s' : Working) × (f : File) × (work c s ≡ returns tt s')
      × (s'.worker.finished ≡ true)
      × (is_complete s'.file ≡ returns true f)
work-is_complete reply c l name bytes s reachable open_ok coming w listed named unlocked found
      small =
    let (s', _, run, finished, (_, _, _, _, states, _)) =
      work_lem reply (length bytes) c l name bytes s reachable open_ok coming w named unlocked found
        (omega arith) small in
    let (f, answer) =
      is_complete_of_states s'.file (all_states s.file s'.file l.fragments listed states) in
    (s', f, run, finished, answer)
