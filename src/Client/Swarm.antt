-- ===== src/Client/Swarm.antt =====
-- client/download/DownloadWorker.cpp, client/file/File.cpp and FileManager.cpp: the workers of one file,
-- each a thread, down to the disk. A call of a method of the file is one step, as in Client/Workers.antt;
-- `storeSegmentToFile` is two, up to the end of `writeLock` and from there on. `answers` says which bytes
-- the peers may answer for a segment; they may answer `F_ERROR` too, or not at all.
pub mod Simulation
pub mod Disk
pub mod Content
pub mod Progress
pub mod Writers
use p2p_network.Base.{ℕ, ◌≡◌, Bool, true, false, Text, List, returns, ◌==◌, if◌then◌else◌}
use p2p_network.Client.Segment.{free, complete}
use p2p_network.Client.File.{
  File, new_file, try_to_set_segment_state_to_download, set_segment_state, is_complete,
}
use p2p_network.Client.FileManager.{FileManager, write_lock, write_segment, create_local_file}
use p2p_network.Client.FileManager.Chunks.{chunk}
use p2p_network.Shared.Torrent.{Torrent}

-- Where a worker stands: between two fragments of its list, waiting for a fragment, before `writeLock`
-- with the bytes that came, with the lock, and before the call that completes the segment.
pub data Task : Type 0 where
  resting : Task
  asking : ℕ → Task
  received locked : ℕ → Text → Task
  written : ℕ → Task

pub record Swarm : Type 0 where
  pub file : File
  pub manager : FileManager
  pub task : ℕ → Task

abbrev pub assign : (ℕ → Task) → ℕ → Task → ℕ → Task
assign task w p v = if w == v then p else task v

-- The peers have the bytes `content` and answer with its segments.
abbrev pub Given : List ℕ → ℕ → Text → Type 0
Given content id bytes = bytes ≡ chunk 8000 id content

-- One step of a worker, or of the manager that looks whether the file is complete. A worker may take up
-- any number at any time, where `work` goes once through the list of its peer and ends: the steps allow
-- every run of the code and more, so that what holds in every reachable state holds of the code.
pub data Move (answers : ℕ → Text → Type 0) (s u : Swarm) : Type 0 where
  claim :
      (w id : ℕ) (f : File)
      → s.task w ≡ resting
      → try_to_set_segment_state_to_download id s.file ≡ returns true f
      → u ≡ record s { file = f; task = assign s.task w (asking id) }
      → Move answers s u
  pass :
      (w id : ℕ) (f : File)
      → s.task w ≡ resting
      → try_to_set_segment_state_to_download id s.file ≡ returns false f
      → u ≡ record s { file = f }
      → Move answers s u
  give_back :
      (w id : ℕ) (f : File)
      → s.task w ≡ asking id
      → set_segment_state id free s.file ≡ returns tt f
      → u ≡ record s { file = f; task = assign s.task w resting }
      → Move answers s u
  receive :
      (w id : ℕ) (bytes : Text)
      → s.task w ≡ asking id
      → answers id bytes
      → u ≡ record s { task = assign s.task w (received id bytes) }
      → Move answers s u
  lock :
      (w id : ℕ) (bytes : Text) (m : FileManager)
      → s.task w ≡ received id bytes
      → write_lock s.file.torrent.file_name s.manager ≡ returns tt m
      → u ≡ record s { manager = m; task = assign s.task w (locked id bytes) }
      → Move answers s u
  write :
      (w id : ℕ) (bytes : Text) (m : FileManager)
      → s.task w ≡ locked id bytes
      → write_segment s.file.torrent.file_name id bytes
          (s.manager.files s.file.torrent.file_name)
          s.manager
        ≡ returns tt m
      → u ≡ record s { manager = m; task = assign s.task w (written id) }
      → Move answers s u
  finish :
      (w id : ℕ) (f : File)
      → s.task w ≡ written id
      → set_segment_state id complete s.file ≡ returns tt f
      → u ≡ record s { file = f; task = assign s.task w resting }
      → Move answers s u
  look :
      (answer : Bool) (f : File)
      → is_complete s.file ≡ returns answer f
      → u ≡ record s { file = f }
      → Move answers s u

-- From a file just made, in memory and on disk, and workers that are all at their start.
pub data Reachable (answers : ℕ → Text → Type 0) (t : Torrent) (path : Text) : Swarm → Type 0 where
  start :
      (fm made : FileManager) (s : Swarm)
      → create_local_file true t fm ≡ returns tt made
      → s ≡ record { file = new_file t path; manager = made; task = λ _. resting }
      → Reachable answers t path s
  later : (r s : Swarm) → Reachable answers t path r → Move answers r s → Reachable answers t path s
