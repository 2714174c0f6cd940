-- ===== src/Tests/ClientTests.antt =====
-- src/client at concrete files.
use p2p_network.Base.{
  ◌%◌, ◌^◌, length, ℕ, ◌≡◌, ◌↔◌, refl, Bool, true, false, none, some, [], ◌∷◌, arith, Text, length,
  returns, ◌≤◌, ◌<◌, ◌*◌,
}
use p2p_network.Shared.Disk.{Disk}
use p2p_network.Shared.Torrent.{Torrent, new_torrent}
use p2p_network.Client.Segment.{free, downloading, complete, set_state}
use p2p_network.Client.File.{
  File, blank_file, new_file, try_to_set_segment_state_to_download, set_segment_state, is_complete,
}
use p2p_network.Client.File.Segments.{new_file-segments, new_file_too_large}
use p2p_network.Client.File.States.{
  state_at, IsFlagged, try_to_set_segment_state_to_download-Claims, is_complete-Answers,
}
use p2p_network.Client.Workers.{idle, fetching, System, at, Reach, start, later, claim, finish}
use p2p_network.Client.Workers.Safety.{segment_fetched_once, complete_stays, stop, more}
use p2p_network.Client.LocalDatabase.{LocalDatabase, load_from_file, save_to_file, loaded}
use p2p_network.Client.LocalDatabase.Saved.{load_first, load_from_file-save_to_file_count}

abbrev film : Torrent
film = new_torrent 9 16001 (b'f' ∷ [])

abbrev film_path : Text
film_path = b'f' ∷ []

abbrev huge : Torrent
huge = new_torrent 8 (3 * 1000000000) (b'h' ∷ [])

abbrev any_disk : Disk
any_disk = record { files = λ _. none; writable = λ _. true }

-- A file of two segments, the first of them taken.
abbrev taken : File
taken = record blank_file {
  segments =
      record { id = 0; offset = 0; state = downloading }
      ∷ record { id = 1; offset = 8000; state = free }
      ∷ [];
}

film_segments : length (new_file film film_path).segments ≡ 3
unfolding new_file
film_segments = refl

new_file-segments_example : 16001 ≤ length (new_file film film_path).segments * 8000
new_file-segments_example = (new_file-segments film film_path (omega arith)).0

new_file_too_large_example : (new_file huge film_path).segments ≡ []
new_file_too_large_example = (new_file_too_large huge film_path (omega arith) (omega arith)).0

try_to_set_segment_state_to_download-Claims_example :
    try_to_set_segment_state_to_download 0 taken ≡ returns false taken
try_to_set_segment_state_to_download-Claims_example =
    (try_to_set_segment_state_to_download-Claims taken 0).1 downloading (λ e. cc) refl

is_complete-Answers_example :
    (answer : Bool) × (f' : File) × (is_complete taken ≡ returns answer f')
    × ((answer ≡ true) ↔ ((i : ℕ) → i < 2 → state_at taken i ≡ some complete))
    × (f'.segments ≡ taken.segments)
    × (f'.is_completed ≡ answer)
    × IsFlagged f'
is_complete-Answers_example = is_complete-Answers taken (λ e. cc)

abbrev film_start : System
film_start = record { file = new_file film film_path; pc = λ _. idle }

-- The file of the film once segment 1 is claimed.
claimed_film :
    (f : File) × (try_to_set_segment_state_to_download 1 (new_file film film_path) ≡ returns true f)
unfolding new_file try_to_set_segment_state_to_download
claimed_film = (_, refl)

abbrev film_claimed : System
film_claimed = record { file = claimed_film.0; pc = at (λ _. idle) 4 (fetching 1) }

claimed-Reach : Reach (new_file film film_path) film_claimed
claimed-Reach =
    later film_start film_claimed (start film_start refl)
      (claim 4 1 claimed_film.0 refl claimed_film.1 refl)

segment_fetched_once_example : state_at film_claimed.file 1 ≡ some downloading
segment_fetched_once_example =
    (segment_fetched_once film film_path {s = film_claimed} 4 4 1 claimed-Reach).1 refl

-- Worker 4 has stored its segment, and worker 2 claims another.
finished_film : (f : File) × (set_segment_state 1 complete claimed_film.0 ≡ returns tt f)
unfolding claimed_film set_segment_state
finished_film = (_, refl)

abbrev film_finished : System
film_finished = record { file = finished_film.0; pc = at film_claimed.pc 4 idle }

claimed_again :
    (f : File) × (try_to_set_segment_state_to_download 0 finished_film.0 ≡ returns true f)
unfolding finished_film try_to_set_segment_state_to_download
claimed_again = (_, refl)

abbrev film_again : System
film_again = record { file = claimed_again.0; pc = at film_finished.pc 2 (fetching 0) }

segment_complete : state_at finished_film.0 1 ≡ some complete
unfolding finished_film set_state
segment_complete = refl

complete_stays_example : state_at film_again.file 1 ≡ some complete
complete_stays_example =
    (complete_stays film film_path {r = film_finished} {s = film_again} 1 blank_file
        (later film_claimed film_finished claimed-Reach
          (finish 4 1 finished_film.0 refl finished_film.1 refl))
        (more film_finished film_again stop
          (claim 2 0 claimed_again.0 refl claimed_again.1 refl))).0
      segment_complete

-- A file whose torrent was read from the path `f`.
abbrev with_path : LocalDatabase
with_path = record {
  files =
      record blank_file { torrent = record film { has_path = true; current_path = b'f' ∷ [] } }
      ∷ [];
}

load_from_file-save_to_file_count_example :
    load_from_file (save_to_file any_disk (b'l' ∷ []) with_path).1 (b'l' ∷ []) with_path
    ≡ loaded (
        load_first
          (save_to_file any_disk (b'l' ∷ []) with_path).1
          (length with_path.files % 2 ^ 16)
          (film_path ∷ [])
          (record { files = [] }))
load_from_file-save_to_file_count_example =
    load_from_file-save_to_file_count any_disk (b'l' ∷ []) with_path with_path (omega arith, tt)
      refl
