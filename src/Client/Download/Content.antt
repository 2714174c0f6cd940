-- ===== src/Client/Download/Content.antt =====
-- The whole way of a file: `File`, `createLocalFile` of FileManager.cpp, and `work` of
-- DownloadWorker.cpp with a peer that has the content.
use p2p_network.Base.{
  ◌==◌, Bool-cases, ℕ, ◌*◌, ◌^◌, ◌<◌, ◌≡◌, ◌≢◌, ◌∙◌, refl, ap, true, false, some, none, List, [],
  ◌∷◌, arith, map, length, length-replicate, length-take, length-drop, drop, replicate, Text,
  text_eq_refl, returns, get_elem?, get_elem?-lt, inl, inr, Option-cases,
}
use p2p_network.Shared.{opened}
use p2p_network.Shared.Message.{FragmentResponse, ListResponse, f_fine, f_frag_complete}
use p2p_network.Shared.Torrent.{Torrent}
use p2p_network.Client.Segment.{PeerInfo, free}
use p2p_network.Client.File.{File, new_file, is_complete}
use p2p_network.Client.File.States.{state_at}
use p2p_network.Client.File.Segments.{Covers, new_file-segments}
use p2p_network.Client.FileManager.{FileManager, put, create_local_file}
use p2p_network.Client.FileManager.Chunks.{chunk, eq_of_chunks}
use p2p_network.Client.FileManager.Storing.{IsUnlocked}
use p2p_network.Client.Sockets.{Socket, Connecting, start_socket}
use p2p_network.Client.Download.{Working, work, peer_ip}
use p2p_network.Client.Download.Exchange.{list_message, fragment_message, is_in}
use p2p_network.Client.Download.Run.{Wanted, work_lem}
use p2p_network.Client.Download.Complete.{all_states, is_complete_of_states}

-- What a peer that has the bytes `content` answers to a request for segment `i`.
abbrev pub honest : Torrent → List ℕ → ℕ → FragmentResponse
honest t content i = record {
  hashed_torrent = t.hashed;
  frag_num = i;
  file_code = f_fine;
  fragment = chunk 8000 i content;
}

abbrev pub honest_list : Torrent → List ℕ → ListResponse
honest_list t ids = record {
  hashed_torrent = t.hashed;
  file_code = f_frag_complete;
  fragments = ids;
}

-- No number stands twice in the list, and all are below `k`.
abbrev pub IsOnce : ℕ → List ℕ → Type 0
IsOnce k [] = Unit
IsOnce k (i ∷ is) = (i < k) × (is_in i is ≡ false) × IsOnce k is

IsOnce-lt : {k : ℕ} (ids : List ℕ) (j : ℕ) → IsOnce k ids → is_in j ids ≡ true → j < k
IsOnce-lt [] j once listed = absurd (ground (arith, listed))
IsOnce-lt (i ∷ is) j (below, _, once) listed = elim (Bool-cases (i == j)) [
  | inl same ↦ ground (arith, same, below)
  | inr other ↦ IsOnce-lt is j once (ground (arith, other, listed))
]

module _ (t : Torrent) (path : Text) (k : ℕ) (covers : Covers k t.size)
    (small : k * 8000 < 2 ^ 31) where
  pub new_file-length : length (new_file t path).segments ≡ k
  new_file-length = omega (arith, covers, new_file-segments t path (omega (arith, covers)))

  pub state_at-new_file : (i : ℕ) → i < k → state_at (new_file t path) i ≡ some free
  state_at-new_file i below =
      let (_, _, _, all) = new_file-segments t path (omega (arith, covers)) in
      let (there, _) = all i (omega (arith, new_file-length)) in ground (arith, there)

  pub there-lt : (i : ℕ) → state_at (new_file t path) i ≢ none → i < k
  there-lt i there = elim (Option-cases (get_elem? (new_file t path).segments i)) [
    | inl missing ↦ absurd (there (ground (arith, missing)))
    | inr (segment, found) ↦
        omega (arith, get_elem?-lt (new_file t path).segments i segment found, new_file-length)
  ]

  module _ (content : List ℕ) (full : length content ≡ k * 8000) where
    IsOnce-Wanted :
        (ids : List ℕ) → IsOnce k ids → Wanted (honest t content) t.size (new_file t path) ids
    unfolding chunk
    IsOnce-Wanted [] once = tt
    IsOnce-Wanted (i ∷ is) (below, fresh, once) = (
      state_at-new_file i below,
      omega (arith, below, covers),
      refl,
      omega (arith, length-take 8000 (drop (i * 8000) content), length-drop (i * 8000) content),
      fresh,
      IsOnce-Wanted is once,
    )

    -- The file of a torrent, below 2 GiB, whose bytes fill `k` segments, the last one perhaps in part, is
    -- made on disk while nobody has locked it, and one worker runs on it whose peer has `k` whole segments
    -- of content, can be reached, and lists each segment once, in any order. Then the worker runs to its
    -- end, the bytes on disk are all of that content, and `isComplete` says true.
    pub work-create_local_file :
        (ids : List ℕ) (c : Connecting) (peer : PeerInfo) (fm : FileManager) (socket : Socket)
        → IsOnce k ids
        → ((j : ℕ) → j < k → is_in j ids ≡ true)
        → peer_ip peer ≢ []
        → start_socket peer.port c ≡ opened
        → socket.incoming
          ≡ list_message (honest_list t ids) ∷ map (λ i. fragment_message (honest t content i)) ids
        → IsUnlocked fm t.file_name
        → (made : FileManager) × (s' : Working) × (f : File) × (create_local_file true t fm
            ≡ returns tt made)
          × (work c (record {
            worker = record { peer = peer; torrent = t; finished = false };
            file = new_file t path;
            manager = made;
            socket = socket;
          })
              ≡ returns tt s')
          × (s'.manager.files t.file_name ≡ some content)
          × (is_complete s'.file ≡ returns true f)
    unfolding create_local_file new_file
    work-create_local_file ids c peer fm socket once all reachable open_ok coming unlocked =
        let zeros : List ℕ = replicate t.size 0 in
        let made : FileManager = record fm { files = put fm.files t.file_name zeros } in
        let start : Working = record {
          worker = record { peer = peer; torrent = t; finished = false };
          file = new_file t path;
          manager = made;
          socket = socket;
        } in
        let (s', bytes', run, _, (found, _, _, bounded, states, chunks)) =
          work_lem (honest t content) t.size c (honest_list t ids) t.file_name zeros start reachable
            open_ok coming (IsOnce-Wanted ids once) refl unlocked (rw (text_eq_refl t.file_name))
            (omega (arith, length-replicate {A = ℕ} t.size 0)) (omega (arith, covers)) in
        let same : bytes' ≡ content =
          eq_of_chunks 8000 k bytes' content
            (bounded (k * 8000) (omega (arith, covers, length-replicate {A = ℕ} t.size 0))
              (λ j listed. omega (arith, IsOnce-lt ids j once listed)))
            (omega (arith, full)) (λ j below. ground (arith, chunks j, all j below)) in
        let (f, answer) =
          is_complete_of_states s'.file (
            all_states (new_file t path) s'.file ids (λ j there. all j (there-lt j there))
              states) in
        (made, s', f, refl, run, found ∙ ap some same, answer)
