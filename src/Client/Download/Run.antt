-- ===== src/Client/Download/Run.antt =====
-- client/download/DownloadWorker.cpp: what a whole run of one worker comes to.
use p2p_network.Base.{
  ℕ, ◌+◌, ◌*◌, ◌^◌, ◌≤◌, ◌<◌, ◌≡◌, ◌≢◌, ◌==◌, refl, ◌∙◌, ap, true, false, some, List, [], ◌∷◌, ◌++◌,
  append-nil, sym, arith, map, if◌then◌else◌, length, Text, text_eq_refl, returns, Bool-cases, inl,
  inr, subst, ==_refl,
}
use p2p_network.Shared.{opened}
use p2p_network.Shared.Message.{FragmentResponse, ListResponse}
use p2p_network.Client.Segment.{free, complete}
use p2p_network.Client.File.{File}
use p2p_network.Client.File.States.{state_at}
use p2p_network.Client.FileManager.{put, write_at}
use p2p_network.Client.FileManager.Chunks.{chunk, chunk-write_at, length-write_at_max}
use p2p_network.Client.FileManager.Storing.{IsUnlocked}
use p2p_network.Client.Sockets.{Incoming, Connecting, start_socket}
use p2p_network.Client.Download.{Working, is_error, work_fragments, work, peer_ip}
use p2p_network.Client.Download.Fragments.{work_fragment-store}
use p2p_network.Client.Download.Exchange.{
  fragment_message, list_message, is_in, request_lem, list_lem, work_exchange,
}

-- What holds after the number `i`, and then after the numbers `is`, were overwritten.
overwritten {ℓ} :
    {A : Type ℓ} (new : ℕ → A) (i j : ℕ) (is : List ℕ) (old mid end : A)
    → is_in i is ≡ false
    → mid ≡ (if i == j then new i else old)
    → end ≡ (if is_in j is then new j else mid)
    → end ≡ (if is_in j (i ∷ is) then new j else old)
overwritten new i j is old mid end fresh first later = elim (Bool-cases (i == j)) [
  | inl same ↦
      let eq : i ≡ j = ground (arith, same) in
      let fresh' : is_in j is ≡ false = subst (λ x. is_in x is ≡ false) eq fresh in
      ground (arith, first, later, ap new eq)
  | inr other ↦ ground (arith, first, later)
]

module _ (reply : ℕ → FragmentResponse) (n : ℕ) where
  -- Each of the numbers names, once, a free segment that starts within `n` bytes, and the peer answers
  -- with 8000 bytes for it.
  abbrev pub Wanted : File → List ℕ → Type 0
  Wanted f [] = Unit
  Wanted f (i ∷ is) =
      (state_at f i ≡ some free)
      × (i * 8000 ≤ n)
      × (is_error (reply i).file_code ≡ false)
      × (length (reply i).fragment ≡ 8000)
      × (is_in i is ≡ false)
      × Wanted f is

  Wanted-later :
      (f f' : File) (i : ℕ) (is : List ℕ)
      → ((j : ℕ) → state_at f' j ≡ (if i == j then some complete else state_at f j))
      → is_in i is ≡ false
      → Wanted f is
      → Wanted f' is
  Wanted-later f f' i [] states fresh w = tt
  Wanted-later f f' i (k ∷ ks) states fresh (at_k, fits, fine, full, once, w) = (
    ground (arith, states k),
    fits,
    fine,
    full,
    once,
    Wanted-later f f' i ks states (ground arith) w,
  )

  -- What a run over the numbers `is` leaves of the file, the bytes on disk and the locks. The bytes do
  -- not get fewer, and no more than the segments need.
  abbrev pub Downloaded : Text → List ℕ → List ℕ → Working → Working → List ℕ → Type 0
  Downloaded name is bytes s s' bytes' =
      (s'.manager.files name ≡ some bytes')
      × IsUnlocked s'.manager name
      × (length bytes ≤ length bytes')
      × ((m : ℕ)
          → length bytes ≤ m
          → ((j : ℕ) → is_in j is ≡ true → j * 8000 + 8000 ≤ m)
          → length bytes' ≤ m)
      × ((j : ℕ) → state_at s'.file j ≡ (if is_in j is then some complete else state_at s.file j))
      × ((j : ℕ)
          → chunk 8000 j bytes' ≡ (if is_in j is then (reply j).fragment else chunk 8000 j bytes))

  pub work_fragments_lem :
      (is : List ℕ) (rest : List Incoming) (name : Text) (bytes : List ℕ) (s : Working)
      → s.socket.incoming ≡ map (λ i. fragment_message (reply i)) is ++ rest
      → Wanted s.file is
      → s.file.torrent.file_name ≡ name
      → IsUnlocked s.manager name
      → s.manager.files name ≡ some bytes
      → n ≤ length bytes
      → n < 2 ^ 31
      → (s' : Working) × (bytes' : List ℕ) × (work_fragments is s ≡ returns tt s')
        × (s'.worker ≡ s.worker)
        × (s'.socket.incoming ≡ rest)
        × Downloaded name is bytes s s' bytes'
  unfolding work_fragments
  work_fragments_lem [] rest name bytes s coming w named unlocked found len small = (
    s,
    bytes,
    refl,
    refl,
    coming,
    (found, unlocked, omega arith, λ m h all. h, λ j. refl, λ j. refl),
  )
  work_fragments_lem (i ∷ is) rest name bytes s coming (at_i, fits, fine, full, once, w) named
        unlocked found len small =
      let (socket, answered, left) =
        request_lem s.worker.torrent i (reply i) (map (λ x. fragment_message (reply x)) is ++ rest)
          s.socket coming in
      let (f, (done, same_torrent, states)) =
        work_fragment-store i s (reply i) socket answered name bytes named at_i fine unlocked found
          full (omega arith) in
      let new : List ℕ = write_at bytes (i * 8000) (reply i).fragment in
      let inside : i * 8000 ≤ length bytes = omega (arith, fits, len) in
      let grown = length-write_at_max bytes (reply i).fragment (i * 8000) inside in
      let s1 : Working = record s {
        file = f;
        manager = record s.manager { files = put s.manager.files name new };
        socket = socket;
      } in
      let (s', bytes', run, worker, over, (found', unlocked', longer, bounded, states', chunks')) =
        work_fragments_lem is rest name new s1 left (Wanted-later s.file f i is states once w)
          (ap (λ t. t.file_name) same_torrent ∙ named) unlocked (rw (text_eq_refl name))
          (omega (arith, grown, len)) small in
      (
        s',
        bytes',
        rw (done, run),
        worker,
        over,
        (
          found',
          unlocked',
          omega (arith, grown, longer),
          λ m below all.
              let first : i * 8000 + 8000 ≤ m = all i (rw (==_refl i)) in
              bounded m (omega (arith, grown, full, below, first))
                (λ j e. all j (ground (arith, e))),
          λ j.
              overwritten (λ _. some complete) i j is (state_at s.file j) (state_at f j)
                (state_at s'.file j) once (states j) (states' j),
          λ j.
              overwritten (λ x. (reply x).fragment) i j is (chunk 8000 j bytes) (chunk 8000 j new)
                (chunk 8000 j bytes') once
                (chunk-write_at 8000 i j (reply i).fragment bytes full inside) (chunks' j),
        ),
      )

  -- A worker whose peer has an address and can be reached, while the file is on disk with `n` bytes or
  -- more, `n` below 2^31, and unlocked, and each number of the peer's list is `Wanted`, runs to its end:
  -- `finished` is set, every listed segment is complete, the others keep their states, and on disk every
  -- listed segment holds the bytes of the peer, every other segment the bytes that it held. The file on
  -- disk does not get shorter, and no longer than the listed segments need.
  pub work_lem :
      (c : Connecting) (l : ListResponse) (name : Text) (bytes : List ℕ) (s : Working)
      → peer_ip s.worker.peer ≢ []
      → start_socket s.worker.peer.port c ≡ opened
      → s.socket.incoming ≡ list_message l ∷ map (λ i. fragment_message (reply i)) l.fragments
      → Wanted s.file l.fragments
      → s.file.torrent.file_name ≡ name
      → IsUnlocked s.manager name
      → s.manager.files name ≡ some bytes
      → n ≤ length bytes
      → n < 2 ^ 31
      → (s' : Working) × (bytes' : List ℕ) × (work c s ≡ returns tt s')
        × (s'.worker.finished ≡ true)
        × Downloaded name l.fragments bytes s s' bytes'
  unfolding work
  work_lem c l name bytes s reachable open_ok coming w named unlocked found len small =
      let (socket, answered, left) =
        list_lem s.worker.torrent l (map (λ i. fragment_message (reply i)) l.fragments) s.socket
          coming in
      let (s', bytes', run, _, _, done) =
        work_fragments_lem l.fragments [] name bytes (record s { socket = socket })
          (left ∙ sym (append-nil (map (λ i. fragment_message (reply i)) l.fragments))) w named
          unlocked found len small in
      (
        record s' { worker = record s'.worker { finished = true } },
        bytes',
        work_exchange c s reachable open_ok ∙ rw (answered, run),
        refl,
        done,
      )
