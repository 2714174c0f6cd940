-- ===== src/Client/Workers.antt =====
-- client/download/DownloadWorker.cpp: the workers of one file, each a thread, and the manager's calls
-- of `isComplete`. A worker claims a segment, asks its peer for it with no lock held, and then sets the
-- segment's state; a call of a method of the file is one step, and the steps of the threads interleave.
pub mod Exclusion
pub mod Safety
use p2p_network.Base.{ℕ, ◌≡◌, Bool, true, false, returns, if◌then◌else◌, ◌==◌}
use p2p_network.Client.Segment.{free, complete}
use p2p_network.Client.File.{
  File, try_to_set_segment_state_to_download, set_segment_state, is_complete,
}

-- Where a worker stands in `work`: between two fragments of its list, or between the claim of a
-- segment and the call that sets its state.
pub data Pc : Type 0 where
  idle : Pc
  fetching : ℕ → Pc

pub record System : Type 0 where
  pub file : File
  pub pc : ℕ → Pc

abbrev pub at : (ℕ → Pc) → ℕ → Pc → ℕ → Pc
at pc w p v = if w == v then p else pc v

-- One step. Which worker moves, for which fragment, and whether the peer answers is left open.
pub data Step (s t : System) : Type 0 where
  -- `tryToSetStateSegmentStateToDownload` says true
  claim :
      (w id : ℕ) (f : File)
      → s.pc w ≡ idle
      → try_to_set_segment_state_to_download id s.file ≡ returns true f
      → t ≡ record { file = f; pc = at s.pc w (fetching id) }
      → Step s t
  -- it says false: the worker goes on to its next fragment
  pass :
      (w id : ℕ) (f : File)
      → s.pc w ≡ idle
      → try_to_set_segment_state_to_download id s.file ≡ returns false f
      → t ≡ record { file = f; pc = s.pc }
      → Step s t
  -- the response has the code `F_ERROR`: the segment is given back
  give_back :
      (w id : ℕ) (f : File)
      → s.pc w ≡ fetching id
      → set_segment_state id free s.file ≡ returns tt f
      → t ≡ record { file = f; pc = at s.pc w idle }
      → Step s t
  -- the bytes are stored, and the segment is complete
  finish :
      (w id : ℕ) (f : File)
      → s.pc w ≡ fetching id
      → set_segment_state id complete s.file ≡ returns tt f
      → t ≡ record { file = f; pc = at s.pc w idle }
      → Step s t
  -- the manager looks whether the file is complete
  look :
      (answer : Bool) (f : File)
      → is_complete s.file ≡ returns answer f
      → t ≡ record { file = f; pc = s.pc }
      → Step s t

-- From a file and workers that are all at their start.
pub data Reach (f : File) : System → Type 0 where
  start : (s : System) → s ≡ record { file = f; pc = λ _. idle } → Reach f s
  later : (r s : System) → Reach f r → Step r s → Reach f s
