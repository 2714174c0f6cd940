-- ===== src/Client/Download/Fragments.antt =====
-- client/download/DownloadWorker.cpp: what a worker makes of one fragment of its peer's list.
use p2p_network.Base.{
  ℕ, ◌*◌, ◌^◌, ◌<◌, ◌≡◌, ◌≢◌, ◌==◌, ◌∙◌, true, false, some, List, arith, if◌then◌else◌, length,
  Text, returns, subst,
}
use p2p_network.Shared.Message.{FragmentResponse}
use p2p_network.Client.Segment.{SegmentState, free, downloading, complete}
use p2p_network.Client.File.{File, try_to_set_segment_state_to_download, set_segment_state}
use p2p_network.Client.File.States.{
  state_at, set_total, set_returns, try_to_set_segment_state_to_download-Claims,
}
use p2p_network.Client.FileManager.{put, write_at}
use p2p_network.Client.FileManager.Storing.{IsUnlocked, store_lem}
use p2p_network.Client.Sockets.{Socket, request_fragment}
use p2p_network.Client.Download.{Working, is_error, work_fragment}

pub try_torrent :
    (f f' : File) (id : ℕ)
    → try_to_set_segment_state_to_download id f ≡ returns true f'
    → f'.torrent ≡ f.torrent
unfolding try_to_set_segment_state_to_download
try_torrent f f' id e = ground arith

pub set_torrent :
    (f f' : File) (id : ℕ) (state : SegmentState)
    → set_segment_state id state f ≡ returns tt f'
    → f'.torrent ≡ f.torrent
unfolding set_segment_state
set_torrent f f' id state e = ground arith

-- A free segment is claimed and then given another state.
abbrev pub Settled : File → ℕ → SegmentState → File → File → Type 0
Settled f id state f1 f2 =
    (try_to_set_segment_state_to_download id f ≡ returns true f1)
    × (set_segment_state id state f1 ≡ returns tt f2)
    × (f1.torrent ≡ f.torrent)
    × (f2.torrent ≡ f.torrent)
    × ((j : ℕ) → state_at f2 j ≡ (if id == j then some state else state_at f j))

pub settle :
    (f : File) (id : ℕ) (state : SegmentState)
    → state_at f id ≡ some free
    → state ≢ downloading
    → (f1 : File) × (f2 : File) × Settled f id state f1 f2
settle f id state is_free other =
    let (f1, e1, states1, _) = (try_to_set_segment_state_to_download-Claims f id).0 is_free in
    let now : state_at f1 id ≡ some downloading = ground (arith, states1 id) in
    let (f2, e2) = set_total f1 id downloading state now other in
    let states2 = (set_returns f1 f2 id state e2).0 in
    (
      f1,
      f2,
      (
        e1,
        e2,
        try_torrent f f1 id e1,
        set_torrent f1 f2 id state e2 ∙ try_torrent f f1 id e1,
        λ j. ground (arith, states1 j, states2 j),
      ),
    )

module _ (id : ℕ) (s : Working) where
  pass :
      (state : SegmentState)
      → state ≢ free
      → state_at s.file id ≡ some state
      → work_fragment id s ≡ returns tt s
  unfolding work_fragment
  pass state other at_id =
      rw ((try_to_set_segment_state_to_download-Claims s.file id).1 state other at_id)

  module _ (r : FragmentResponse) (socket : Socket)
      (answered : request_fragment s.worker.torrent id s.socket ≡ returns r socket) where
    given_back :
        state_at s.file id ≡ some free
        → is_error r.file_code ≡ true
        → (f : File) × (work_fragment id s ≡ returns tt (record s { file = f; socket = socket }))
          × ((j : ℕ) → state_at f j ≡ state_at s.file j)
    unfolding work_fragment
    given_back is_free err =
        let (f1, f2, (e1, e2, _, _, states)) = settle s.file id free is_free (λ e. cc) in
        (f2, rw (e1, answered, err, e2), λ j. ground (arith, states j))

    -- One fragment of the peer's list, with the answer `r` to a request for it: a segment that is not
    -- free is passed over and nothing is asked for; after an answer `F_ERROR` every segment is in the
    -- state that it had, and nothing is stored.
    pub work_fragment-Keeps :
        ((state : SegmentState)
          → state ≢ free
          → state_at s.file id ≡ some state
          → work_fragment id s ≡ returns tt s)
        × (state_at s.file id ≡ some free
            → is_error r.file_code ≡ true
            → (f : File) × (work_fragment id s
                ≡ returns tt (record s { file = f; socket = socket }))
              × ((j : ℕ) → state_at f j ≡ state_at s.file j))
    work_fragment-Keeps = (pass, given_back)

    abbrev pub Stored : Text → List ℕ → File → Type 0
    Stored name bytes f =
        (work_fragment id s
          ≡ returns tt (record s {
            file = f;
            manager = record s.manager {
              files = put s.manager.files name (write_at bytes (id * 8000) r.fragment);
            };
            socket = socket;
          }))
        × (f.torrent ≡ s.file.torrent)
        × ((j : ℕ) → state_at f j ≡ (if id == j then some complete else state_at s.file j))

    stored :
        (bytes : List ℕ)
        → state_at s.file id ≡ some free
        → is_error r.file_code ≡ false
        → length r.fragment ≡ 8000
        → id * 8000 < 2 ^ 31
        → IsUnlocked s.manager s.file.torrent.file_name
        → s.manager.files s.file.torrent.file_name ≡ some bytes
        → (f : File) × Stored s.file.torrent.file_name bytes f
    unfolding work_fragment
    stored bytes is_free fine full small unlocked found =
        let (f1, f2, (e1, e2, t1, t2, states)) = settle s.file id complete is_free (λ e. cc) in
        (
          f2,
          (
            rw (
              e1,
              answered,
              fine,
              t1,
              store_lem s.manager s.file.torrent.file_name id r.fragment bytes unlocked found full
                  small,
              e2,
            ),
            t2,
            states,
          ),
        )

    pub work_fragment-store :
        (name : Text) (bytes : List ℕ)
        → s.file.torrent.file_name ≡ name
        → state_at s.file id ≡ some free
        → is_error r.file_code ≡ false
        → IsUnlocked s.manager name
        → s.manager.files name ≡ some bytes
        → length r.fragment ≡ 8000
        → id * 8000 < 2 ^ 31
        → (f : File) × Stored name bytes f
    work_fragment-store name bytes named is_free fine unlocked found full small =
        subst
          (λ x.
            IsUnlocked s.manager x → s.manager.files x ≡ some bytes → (f : File) × Stored x bytes f)
          named (stored bytes is_free fine full small) unlocked found
