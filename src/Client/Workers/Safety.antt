-- ===== src/Client/Workers/Safety.antt =====
-- client/download/DownloadWorker.cpp: what holds in every state that the workers of a new file reach.
use p2p_network.Base.{
  ℕ, ◌≡◌, ◌≢◌, refl, true, Option, none, some, arith, returns, get_elem?, Text, length, ◌<◌,
}
use p2p_network.Shared.Torrent.{Torrent}
use p2p_network.Client.Segment.{free, downloading, complete, Segment}
use p2p_network.Client.File.{File, new_file, set_segment_state, is_complete}
use p2p_network.Client.File.Segments.{new_file-free}
use p2p_network.Client.File.States.{state_of, state_at, set_total, all_complete_iff}
use p2p_network.Client.Workers.{idle, fetching, System, Step, Reach, start, later}
use p2p_network.Client.Workers.Exclusion.{Inv, Step-Inv, Step-complete}

state_of-free :
    (t : Torrent) (path : Text) (k : ℕ) (o : Option Segment)
    → get_elem? (new_file t path).segments k ≡ o
    → state_of o ≢ some downloading
state_of-free t path k none e h = cc
state_of-free t path k (some s) e h = ground (arith, (new_file-free t path k s e).0)

init-Inv : (t : Torrent) (path : Text) → Inv (record { file = new_file t path; pc = λ _. idle })
unfolding new_file
init-Inv t path = record {
  owner = λ w id h. cc;
  unique = λ v w id p q. cc;
  owned = λ id h. absurd (state_of-free t path id _ refl h);
  flagged = λ h. cc;
}

pub Reach-Inv : (t : Torrent) (path : Text) {s : System} → Reach (new_file t path) s → Inv s
Reach-Inv t path (start s e) = rw e (init-Inv t path)
Reach-Inv t path (later r s before step) = Step-Inv r (Reach-Inv t path before) s step

-- However the workers of a new file interleave, two of them never fetch the same segment at a time,
-- and a segment is downloading exactly while some worker fetches it.
pub segment_fetched_once :
    (t : Torrent) (path : Text) {s : System} (v w id : ℕ)
    → Reach (new_file t path) s
    → (s.pc v ≡ fetching id → s.pc w ≡ fetching id → v ≡ w)
      × (s.pc v ≡ fetching id → state_at s.file id ≡ some downloading)
      × (state_at s.file id ≡ some downloading → (u : ℕ) × (s.pc u ≡ fetching id))
segment_fetched_once t path v w id reach =
    let inv = Reach-Inv t path reach in (inv.unique v w id, inv.owner v id, inv.owned id)

-- A worker that fetches a segment can always settle it: in every reachable state the call that gives
-- the segment back and the call that completes it both return, with no exception and no segment out
-- of range.
pub settle_returns :
    (t : Torrent) (path : Text) {s : System} (w id : ℕ)
    → Reach (new_file t path) s
    → s.pc w ≡ fetching id
    → ((f : File) × (set_segment_state id free s.file ≡ returns tt f))
      × ((f : File) × (set_segment_state id complete s.file ≡ returns tt f))
settle_returns t path {s} w id reach here =
    let mine = (Reach-Inv t path reach).owner w id here in
    (
      set_total s.file id downloading free mine (λ e. cc),
      set_total s.file id downloading complete mine (λ e. cc),
    )

-- The states that the workers go on to from a state.
pub data Runs (s : System) : System → Type 0 where
  stop : Runs s s
  more : (r t : System) → Runs s r → Step r t → Runs s t

Runs-Inv : {s t : System} → Inv s → Runs s t → Inv t
Runs-Inv inv stop = inv
Runs-Inv inv (more r t before step) = Step-Inv r (Runs-Inv inv before) t step

Runs-complete :
    {s t : System} (k : ℕ)
    → Inv s
    → Runs s t
    → state_at s.file k ≡ some complete
    → state_at t.file k ≡ some complete
Runs-complete k inv stop done = done
Runs-complete k inv (more r t before step) done =
    Step-complete r (Runs-Inv inv before) t k step (Runs-complete k inv before done)

-- In every state that the workers of a new file reach, a segment that is complete stays complete
-- whatever happens later; so if `isComplete` says true, all segments of the file at that time are
-- complete in every later state.
pub complete_stays :
    (t : Torrent) (path : Text) {r s : System} (k : ℕ) (f : File)
    → Reach (new_file t path) r
    → Runs r s
    → (state_at r.file k ≡ some complete → state_at s.file k ≡ some complete)
      × (is_complete r.file ≡ returns true f
          → k < length r.file.segments
          → state_at s.file k ≡ some complete)
unfolding is_complete
complete_stays t path {r} k f reach runs =
    let inv = Reach-Inv t path reach in
    (
      Runs-complete k inv runs,
      λ said below.
          Runs-complete k inv runs
            ((all_complete_iff r.file.segments).0 (ground (arith, inv.flagged)) k below),
    )
