-- ===== src/Client/Download/Hostile.antt =====
-- client/download/DownloadWorker.cpp: what a peer that answers anything can do to a worker.
use p2p_network.Base.{
  ℕ, ◌+◌, ◌-◌, ◌*◌, ◌^◌, ◌≤◌, ◌<◌, ◌≡◌, refl, false, true, ◌||◌, ltb, some, List, [], ◌∷◌, ◌++◌,
  arith, ◌==◌, if◌then◌else◌, length, take, Text, text_eq_refl, returns, undefined,
}
use p2p_network.Shared.Message.{FragmentResponse}
use p2p_network.Client.Segment.{free, complete}
use p2p_network.Client.File.States.{state_at, try_to_set_segment_state_to_download-Claims}
use p2p_network.Client.FileManager.{FileManager, put, write_at, write_unlock, store_segment_to_file}
use p2p_network.Client.FileManager.Storing.{IsUnlocked, erase_first-append}
use p2p_network.Client.Sockets.{Socket, request_fragment}
use p2p_network.Client.Download.{Working, is_error, work_fragment}
use p2p_network.Client.Download.Fragments.{settle}

-- The bytes that are taken from a fragment: its first 8000, or itself and the zero behind it.
abbrev pub taken : Text → List ℕ
taken fragment = take 8000 (fragment ++ 0 ∷ [])

module _ (fm : FileManager) (name : Text) (id : ℕ) (fragment : Text) (bytes : List ℕ)
    (unlocked : IsUnlocked fm name) (found : fm.files name ≡ some bytes)
    (small : id * 8000 < 2 ^ 31) where
  store-undefined :
      length fragment + 1 < 8000 → store_segment_to_file name id fragment fm ≡ undefined
  unfolding store_segment_to_file
  store-undefined short =
      let over : (ltb (length fragment + 1) 8000 || ltb (2 ^ 31 - 1) (id * 8000)) ≡ true =
        ground arith in
      rw (unlocked.0, found, over) refl

  store_taken :
      8000 ≤ length fragment + 1
      → store_segment_to_file name id fragment fm
        ≡ returns tt
            (record fm { files = put fm.files name (write_at bytes (id * 8000) (taken fragment)) })
  unfolding store_segment_to_file
  store_taken long =
      let inside : (ltb (length fragment + 1) 8000 || ltb (2 ^ 31 - 1) (id * 8000)) ≡ false =
        ground arith in
      rw (unlocked.0, found, inside)
        (unfold write_unlock in rw (erase_first-append name fm.write_locked unlocked.1) refl)

-- One fragment of a peer's list, whatever the peer lists and answers. A number that names no segment is
-- undefined behaviour. For a free segment below 2 GiB of a file on disk that nobody has locked, an answer
-- other than `F_ERROR` is undefined behaviour exactly if its fragment is shorter than 7999 bytes; else the
-- worker completes the segment, with the first 8000 bytes of the fragment, or all of it and a zero.
pub work_fragment-undefined :
    (id : ℕ) (s : Working) (r : FragmentResponse) (socket : Socket) (bytes : List ℕ)
    → request_fragment s.worker.torrent id s.socket ≡ returns r socket
    → is_error r.file_code ≡ false
    → IsUnlocked s.manager s.file.torrent.file_name
    → s.manager.files s.file.torrent.file_name ≡ some bytes
    → id * 8000 < 2 ^ 31
    → (length s.file.segments ≤ id → work_fragment id s ≡ undefined)
      × (state_at s.file id ≡ some free → length r.fragment < 7999 → work_fragment id s ≡ undefined)
      × (state_at s.file id ≡ some free
          → 7999 ≤ length r.fragment
          → (s' : Working) × (work_fragment id s ≡ returns tt s')
            × (s'.manager.files s.file.torrent.file_name
                ≡ some (write_at bytes (id * 8000) (taken r.fragment)))
            × ((j : ℕ)
                → state_at s'.file j ≡ (if id == j then some complete else state_at s.file j)))
unfolding work_fragment
work_fragment-undefined id s r socket bytes answered fine unlocked found small = (
  λ out. rw ((try_to_set_segment_state_to_download-Claims s.file id).2 out) refl,
  λ is_free short.
      let (f1, f2, (e1, e2, t1, t2, states)) = settle s.file id complete is_free (λ e. cc) in
      rw
        (
          e1,
          answered,
          fine,
          t1,
          store-undefined s.manager s.file.torrent.file_name id r.fragment bytes unlocked found
              small (omega arith),
        )
        refl,
  λ is_free long.
      let (f1, f2, (e1, e2, t1, t2, states)) = settle s.file id complete is_free (λ e. cc) in
      let name : Text = s.file.torrent.file_name in
      let new : List ℕ = write_at bytes (id * 8000) (taken r.fragment) in
      (
        record s {
          file = f2;
          manager = record s.manager { files = put s.manager.files name new };
          socket = socket;
        },
        rw
            (
              e1,
              answered,
              fine,
              t1,
              store_taken s.manager s.file.torrent.file_name id r.fragment bytes unlocked found
                  small (omega arith),
              e2,
            )
            refl,
        rw (text_eq_refl name) refl,
        states,
      ),
)
