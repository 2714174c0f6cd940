-- ===== src/Client/Download/Interrupted.antt =====
-- client/download/DownloadWorker.cpp: a worker whose peer stops answering in the middle of the download.
use p2p_network.Base.{
  ℕ, ◌≤◌, ◌<◌, ◌^◌, ◌≡◌, ◌≢◌, ◌∙◌, refl, sym, true, some, List, [], ◌∷◌, ◌++◌, All, map, length,
  Text, Outcome, then_run, returns, throws, undefined, unfinished, if◌then◌else◌, ap, arith, subst,
}
use p2p_network.Shared.{opened}
use p2p_network.Shared.Message.{FragmentResponse, ListResponse}
use p2p_network.Client.Segment.{complete}
use p2p_network.Client.File.{File}
use p2p_network.Client.File.States.{state_at}
use p2p_network.Client.FileManager.Storing.{IsUnlocked}
use p2p_network.Client.Sockets.{Incoming, Connecting, start_socket}
use p2p_network.Client.Download.{Working, work_fragment, work_fragments, work, peer_ip}
use p2p_network.Client.Download.Exchange.{
  fragment_message, list_message, is_in, list_lem, work_exchange,
}
use p2p_network.Client.Download.Run.{Wanted, Downloaded, work_fragments_lem}
use p2p_network.Client.Download.Silent.{IsTimeout, Named, work_fragments-Unchanged}

then_run-append :
    (o : Outcome Working (Unit {0})) (is js : List ℕ)
    → ((s : Working)
        → work_fragments (is ++ js) s ≡ then_run (work_fragments is s) (λ _. work_fragments js))
    → then_run o (λ _. work_fragments (is ++ js))
      ≡ then_run (then_run o (λ _. work_fragments is)) (λ _. work_fragments js)
then_run-append (returns a s) is js h = h s
then_run-append (throws s) is js h = refl
then_run-append undefined is js h = refl
then_run-append unfinished is js h = refl

-- A list of numbers is worked through from its front.
work_fragments-append :
    (is js : List ℕ) (s : Working)
    → work_fragments (is ++ js) s ≡ then_run (work_fragments is s) (λ _. work_fragments js)
unfolding work_fragments
work_fragments-append [] js s = refl
work_fragments-append (i ∷ is) js s =
    then_run-append (work_fragment i s) is js (work_fragments-append is js)

Named-complete :
    (f f' : File) (is ids : List ℕ)
    → ((j : ℕ) → state_at f' j ≡ (if is_in j is then some complete else state_at f j))
    → Named f ids
    → Named f' ids
Named-complete f f' is [] states h = tt
Named-complete f f' is (i ∷ ids) states (at_i, h) =
    (λ missing. ground (arith, states i, missing, at_i), Named-complete f f' is ids states h)

-- A worker whose peer has an address and can be reached lists `answered ++ unanswered`, answers the
-- requests for the first numbers, each as `Wanted` says, and then falls silent, so that every later
-- `receive` times out. The worker still runs to its end, with `finished` set. Exactly the answered
-- numbers are downloaded: their segments are complete and hold the peer's bytes on disk, the segments of
-- the unanswered numbers, and all others, are in the states that they had, free ones free again, with
-- the bytes that they held, and the file on disk is not locked.
pub work_interrupted :
    (reply : ℕ → FragmentResponse) (n : ℕ) (c : Connecting) (l : ListResponse)
    (answered unanswered : List ℕ) (silence : List Incoming) (name : Text) (bytes : List ℕ)
    (s : Working)
    → peer_ip s.worker.peer ≢ []
    → start_socket s.worker.peer.port c ≡ opened
    → l.fragments ≡ answered ++ unanswered
    → s.socket.incoming
      ≡ list_message l ∷ (map (λ i. fragment_message (reply i)) answered ++ silence)
    → All IsTimeout silence
    → Wanted reply n s.file answered
    → Named s.file unanswered
    → s.file.torrent.file_name ≡ name
    → IsUnlocked s.manager name
    → s.manager.files name ≡ some bytes
    → n ≤ length bytes
    → n < 2 ^ 31
    → (s' : Working) × (bytes' : List ℕ) × (work c s ≡ returns tt s')
      × (s'.worker.finished ≡ true)
      × Downloaded reply n name answered bytes s s' bytes'
unfolding work
work_interrupted reply n c l answered unanswered silence name bytes s reachable open_ok listed
      coming silent w named file_named unlocked found len small =
    let (socket, heard, left) =
      list_lem s.worker.torrent l (map (λ i. fragment_message (reply i)) answered ++ silence)
        s.socket coming in
    let (s1, bytes', run1, worker1, over, (found', unlocked', longer, bounded, states1, chunks')) =
      work_fragments_lem reply n answered silence name bytes (record s { socket = socket }) left w
        file_named unlocked found len small in
    let (s2, run2, (manager2, worker2, states2, _)) =
      work_fragments-Unchanged unanswered s1 (subst (λ x. All IsTimeout x) (sym over) silent)
        (Named-complete s.file s1.file answered unanswered states1 named) in
    let run : work_fragments l.fragments (record s { socket = socket }) ≡ returns tt s2 =
      ap (λ ids. work_fragments ids (record s { socket = socket })) listed
      ∙ work_fragments-append answered unanswered (record s { socket = socket })
      ∙ ap (λ o. then_run o (λ _. work_fragments unanswered)) run1
      ∙ run2 in
    (
      record s2 { worker = record s2.worker { finished = true } },
      bytes',
      work_exchange c s reachable open_ok ∙ rw (heard, run),
      refl,
      (
        ap (λ m. m.files name) manager2 ∙ found',
        subst (λ m. IsUnlocked m name) (sym manager2) unlocked',
        longer,
        bounded,
        λ j. states2 j ∙ states1 j,
        chunks',
      ),
    )
