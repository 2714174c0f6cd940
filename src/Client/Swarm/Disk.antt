-- ===== src/Client/Swarm/Disk.antt =====
-- The workers down to the disk: an invariant of their moves, with what the disk holds.
pub mod Moves
use p2p_network.Base.{
  ◌≤◌, ℕ, ◌*◌, ◌^◌, ◌<◌, ◌≡◌, ◌≢◌, ◌∙◌, ap, subst, true, Option, some, none, List, arith, length,
  replicate, Text, text_eq_refl, returns, Bool-cases, inl, inr,
}
use p2p_network.Shared.Torrent.{Torrent}
use p2p_network.Client.Segment.{complete}
use p2p_network.Client.File.States.{state_at}
use p2p_network.Client.File.Segments.{Covers}
use p2p_network.Client.FileManager.{
  FileManager, put, write_at, write_lock, write_unlock, write_segment, create_local_file,
  is_read_locked,
}
use p2p_network.Client.FileManager.Chunks.{chunk}
use p2p_network.Client.FileManager.Storing.{write_segment-found}
use p2p_network.Client.Swarm.{Task, resting, asking, received, locked, written, Swarm}

pub write_lock-files :
    (fm m : FileManager) (name : Text) → write_lock name fm ≡ returns tt m → m.files ≡ fm.files
unfolding write_lock
write_lock-files fm m name e = elim (Bool-cases (is_read_locked fm name)) [
  | inl read ↦ absurd (ground (arith, read, e))
  | inr unread ↦ ground (arith, unread, e)
]

pub write_segment-files :
    (fm m : FileManager) (name : Text) (id : ℕ) (bytes disk : List ℕ)
    → length bytes ≡ 8000
    → id * 8000 < 2 ^ 31
    → fm.files name ≡ some disk
    → write_segment name id bytes (fm.files name) fm ≡ returns tt m
    → m.files name ≡ some (write_at disk (id * 8000) bytes)
unfolding write_unlock
write_segment-files fm m name id bytes disk full small there e =
    let run = write_segment-found fm name id bytes disk full small in
    let known : write_segment name id bytes (some disk) fm ≡ returns tt m =
      subst (λ o. write_segment name id bytes o fm ≡ returns tt m) there e in
    let files : m.files ≡ put fm.files name (write_at disk (id * 8000) bytes) =
      ground (arith, run, known) in
    ap (λ g. g name) files ∙ rw (text_eq_refl name)

pub create_local_file-files :
    (t : Torrent) (fm made : FileManager)
    → create_local_file true t fm ≡ returns tt made
    → made.files t.file_name ≡ some (replicate t.size 0)
unfolding create_local_file
create_local_file-files t fm made e =
    let files : made.files ≡ put fm.files t.file_name (replicate t.size 0) = ground (arith, e) in
    ap (λ g. g t.file_name) files ∙ rw (text_eq_refl t.file_name)

-- The segment that a worker is about, if it is about one.
abbrev pub about : Task → Option ℕ
about resting = none
about (asking id) = some id
about (received id bytes) = some id
about (locked id bytes) = some id
about (written id) = some id

-- The bytes that a worker holds for a segment.
abbrev pub held : Task → Option Text
held (received id bytes) = some bytes
held (locked id bytes) = some bytes
held _ = none

module _ (answers : ℕ → Text → Type 0) (t : Torrent) (path : Text) (k : ℕ)
    (covers : Covers k t.size) (small : k * 8000 < 2 ^ 31)
    (sized : (id : ℕ) (bytes : Text) → id < k → answers id bytes → length bytes ≡ 8000) where
  pub record DiskInv (s : Swarm) : Type 0 where
    pub named : s.file.torrent.file_name ≡ t.file_name
    pub within : (j : ℕ) → state_at s.file j ≢ none → j < k
    pub kept : (j : ℕ) → j < k → state_at s.file j ≢ none
    pub busy : (w j : ℕ) → about (s.task w) ≡ some j → j < k
    pub came :
        (w j : ℕ) (b : Text) → about (s.task w) ≡ some j → held (s.task w) ≡ some b → answers j b
    pub disk : List ℕ
    pub there : s.manager.files t.file_name ≡ some disk
    pub long : t.size ≤ length disk
    pub short : length disk ≤ k * 8000
    pub done : (j : ℕ) → state_at s.file j ≡ some complete → answers j (chunk 8000 j disk)
    pub stored : (w j : ℕ) → s.task w ≡ written j → answers j (chunk 8000 j disk)
