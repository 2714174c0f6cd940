-- ===== src/Client/Download/Silent.antt =====
-- client/download/DownloadWorker.cpp with a peer that falls silent: `select` times out, and has then
-- cleared the set of descriptors that it looks at, so every later `receive` of the socket times out too.
use p2p_network.Base.{
  ℕ, ◌≡◌, ◌≢◌, ◌∙◌, refl, sym, none, some, List, [], ◌∷◌, All, returns, Option-cases, inl, inr,
}
use p2p_network.Shared.{timed_out}
use p2p_network.Shared.Message.{cc_fragment_request, fragment_request, no_fragment}
use p2p_network.Shared.Torrent.{Torrent}
use p2p_network.Client.Segment.{SegmentState, free, downloading, complete}
use p2p_network.Client.File.{File}
use p2p_network.Client.File.States.{state_at}
use p2p_network.Client.Sockets.{Socket, Incoming, select_timeout, request_fragment}
use p2p_network.Client.Download.{Working, work_fragment, work_fragments}
use p2p_network.Client.Download.Fragments.{work_fragment-Keeps}

abbrev pub IsTimeout : Incoming → Type 0
IsTimeout i = i ≡ select_timeout

-- What is left of the input after a `receive`.
abbrev later : List Incoming → List Incoming
later [] = []
later (i ∷ is) = is

later-IsTimeout : (is : List Incoming) → All IsTimeout is → All IsTimeout (later is)
later-IsTimeout [] h = tt
later-IsTimeout (i ∷ is) h = h.1

-- The socket after a request that timed out.
asked : Torrent → ℕ → Socket → List Incoming → Socket
asked t id k rest = record k {
  state = timed_out;
  outbox =
      record { code = cc_fragment_request; contents = fragment_request t.hashed id } ∷ k.outbox;
  incoming = rest;
}

request-IsTimeout :
    (is : List Incoming) (t : Torrent) (id : ℕ) (k : Socket)
    → k.incoming ≡ is
    → All IsTimeout is
    → request_fragment t id k ≡ returns no_fragment (asked t id k (later is))
unfolding request_fragment asked
request-IsTimeout [] t id k e h = rw e refl
request-IsTimeout (i ∷ is) t id k e h = rw (e, h.0) refl

-- What a run leaves that downloads nothing: the files and the locks, the worker, and the states of all
-- segments are as they were, and the socket still times out.
abbrev pub Unchanged : Working → Working → Type 0
Unchanged s s' =
    (s'.manager ≡ s.manager)
    × (s'.worker ≡ s.worker)
    × ((j : ℕ) → state_at s'.file j ≡ state_at s.file j)
    × All IsTimeout s'.socket.incoming

module _ (id : ℕ) (s : Working) (silent : All IsTimeout s.socket.incoming) where
  next : Socket
  next = asked s.worker.torrent id s.socket (later s.socket.incoming)

  answered : request_fragment s.worker.torrent id s.socket ≡ returns no_fragment next
  unfolding next
  answered = request-IsTimeout s.socket.incoming s.worker.torrent id s.socket refl silent

  passed :
      (state : SegmentState)
      → state ≢ free
      → state_at s.file id ≡ some state
      → (s' : Working) × (work_fragment id s ≡ returns tt s') × Unchanged s s'
  passed state other at_id = (
    s,
    (work_fragment-Keeps id s no_fragment next answered).0 state other at_id,
    (refl, refl, λ j. refl, silent),
  )

  one_number :
      (state : SegmentState)
      → state_at s.file id ≡ some state
      → (s' : Working) × (work_fragment id s ≡ returns tt s') × Unchanged s s'
  unfolding asked next
  one_number free at_id =
      let (f, run, states) = (work_fragment-Keeps id s no_fragment next answered).1 at_id refl in
      (
        record s { file = f; socket = next },
        run,
        (refl, refl, states, later-IsTimeout s.socket.incoming silent),
      )
  one_number downloading at_id = passed downloading (λ e. cc) at_id
  one_number complete at_id = passed complete (λ e. cc) at_id

-- Each number names a segment of the file.
abbrev pub Named : File → List ℕ → Type 0
Named f ids = All (λ i. state_at f i ≢ none) ids

Named-states :
    (f f' : File) (ids : List ℕ)
    → ((j : ℕ) → state_at f' j ≡ state_at f j)
    → Named f ids
    → Named f' ids
Named-states f f' [] same h = tt
Named-states f f' (i ∷ ids) same (at_i, h) =
    (λ e. at_i (sym (same i) ∙ e), Named-states f f' ids same h)

-- Over a socket that times out, a worker goes through the rest of its list and changes nothing.
pub work_fragments-Unchanged :
    (ids : List ℕ) (s : Working)
    → All IsTimeout s.socket.incoming
    → Named s.file ids
    → (s' : Working) × (work_fragments ids s ≡ returns tt s') × Unchanged s s'
unfolding work_fragments
work_fragments-Unchanged [] s silent named = (s, refl, (refl, refl, λ j. refl, silent))
work_fragments-Unchanged (i ∷ ids) s silent (at_i, named) =
    elim (Option-cases (state_at s.file i)) [
      | inl missing ↦ absurd (at_i missing)
      | inr (state, found) ↦
          let (s1, run1, (manager1, worker1, states1, silent1)) =
            one_number i s silent state found in
          let (s', run, (manager, worker, states, silent')) =
            work_fragments-Unchanged ids s1 silent1
              (Named-states s.file s1.file ids states1 named) in
          (
            s',
            rw (run1, run) refl,
            (manager ∙ manager1, worker ∙ worker1, λ j. states j ∙ states1 j, silent'),
          )
    ]
