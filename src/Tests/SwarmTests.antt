-- ===== src/Tests/SwarmTests.antt =====
-- The workers down to the disk, at a file of one segment that it does not fill.
use p2p_network.Base.{
  ◌<◌, ℕ, ◌*◌, ◌≡◌, ◌∷◌, [], List, refl, true, none, some, Text, text_eq, arith, returns, replicate,
  length, length-replicate, length-take,
}
use p2p_network.Shared.Torrent.{Torrent, new_torrent}
use p2p_network.Client.Segment.{set_state, complete}
use p2p_network.Client.File.{
  File, new_file, set_segment_state, try_to_set_segment_state_to_download, is_complete,
  all_complete,
}
use p2p_network.Client.File.Segments.{Covers}
use p2p_network.Client.FileManager.{
  FileManager, put, write_at, write_lock, write_unlock, write_segment, erase_first,
  create_local_file,
}
use p2p_network.Client.FileManager.Chunks.{chunk}
use p2p_network.Client.FileManager.Storing.{write_segment-found}
use p2p_network.Client.Swarm.{
  Given, Swarm, Move, Reachable, resting, asking, received, locked, written, assign, claim, receive,
  lock, write, finish, start, later,
}
use p2p_network.Client.Swarm.Content.{answered_on_disk, Given-sized, complete_on_disk}
use p2p_network.Client.Swarm.Progress.{worker_moves}

abbrev film_name : Text
film_name = b'f' ∷ []

abbrev short_film : Torrent
short_film = new_torrent 9 7000 film_name

film-Covers : Covers 1 short_film.size
film-Covers = (omega arith, omega arith)

abbrev fives : List ℕ
fives = replicate 8000 5

abbrev nothing_locked : FileManager
nothing_locked = record { read_locked = []; write_locked = []; files = λ _. none }

abbrev on_disk : FileManager
on_disk = record nothing_locked { files = put nothing_locked.files film_name (replicate 7000 0) }

abbrev new_swarm : Swarm
new_swarm = record { file = new_file short_film film_name; manager = on_disk; task = λ _. resting }

made_on_disk : create_local_file true short_film nothing_locked ≡ returns tt on_disk
unfolding create_local_file
made_on_disk = refl

claimed_film :
    (f : File) × (try_to_set_segment_state_to_download 0 (new_file short_film film_name)
      ≡ returns true f)
unfolding new_file try_to_set_segment_state_to_download
claimed_film = (_, refl)

abbrev one_asks : Swarm
one_asks = record new_swarm { file = claimed_film.0; task = assign (λ _. resting) 7 (asking 0) }

asks_Reachable : Reachable (Given fives) short_film film_name one_asks
asks_Reachable =
    later new_swarm one_asks (start nothing_locked on_disk new_swarm made_on_disk refl)
      (claim 7 0 claimed_film.0 refl claimed_film.1 refl)

sized_fives : (id : ℕ) (bytes : Text) → id < 1 → Given fives id bytes → length bytes ≡ 8000
sized_fives =
    Given-sized fives short_film film_name 1 film-Covers (omega arith)
      (length-replicate {A = ℕ} 8000 5)

worker_moves_example :
    (u : Swarm) × Move (Given fives) one_asks u × (u.task 7 ≡ received 0 (chunk 8000 0 fives))
worker_moves_example =
    worker_moves (Given fives) short_film film_name 1 film-Covers (omega arith) sized_fives
      (λ id. chunk 8000 id fives) (λ id below. refl) 7 asks_Reachable refl (λ e. cc)

abbrev bytes : Text
bytes = chunk 8000 0 fives

abbrev one_received : Swarm
one_received = record one_asks { task = assign one_asks.task 7 (received 0 bytes) }

abbrev film_locked : FileManager
film_locked = record on_disk { write_locked = film_name ∷ [] }

film_locks : write_lock film_name on_disk ≡ returns tt film_locked
unfolding write_lock
film_locks = refl

abbrev one_locked : Swarm
one_locked = record one_received {
  manager = film_locked;
  task = assign one_received.task 7 (locked 0 bytes);
}

abbrev film_written : FileManager
film_written = record on_disk {
  files = put film_locked.files film_name (write_at (replicate 7000 0) (0 * 8000) bytes);
}

bytes-length : length bytes ≡ 8000
unfolding chunk
bytes-length = omega (arith, length-take {A = ℕ} 8000 fives, length-replicate {A = ℕ} 8000 5)

film_writes :
    write_segment film_name 0 bytes (film_locked.files film_name) film_locked
    ≡ returns tt film_written
unfolding write_unlock text_eq erase_first
film_writes =
    write_segment-found film_locked film_name 0 bytes (replicate 7000 0) bytes-length (omega arith)

abbrev one_written : Swarm
one_written = record one_locked {
  manager = film_written;
  task = assign one_locked.task 7 (written 0);
}

finished_film : (f : File) × (set_segment_state 0 complete claimed_film.0 ≡ returns tt f)
unfolding claimed_film set_segment_state
finished_film = (_, refl)

abbrev one_done : Swarm
one_done = record one_written { file = finished_film.0; task = assign one_written.task 7 resting }

done_Reachable : Reachable (Given fives) short_film film_name one_done
unfolding claimed_film try_to_set_segment_state_to_download
done_Reachable =
    later one_written one_done
      (later one_locked one_written
        (later one_received one_locked
          (later one_asks one_received asks_Reachable (receive 7 0 bytes refl refl refl))
          (lock 7 0 bytes film_locked refl film_locks refl))
        (write 7 0 bytes film_written refl film_writes refl))
      (finish 7 0 finished_film.0 refl finished_film.1 refl)

now_complete : (f : File) × (is_complete one_done.file ≡ returns true f)
unfolding finished_film is_complete all_complete set_state
now_complete = (_, refl)

complete_on_disk_example : one_done.manager.files film_name ≡ some fives
complete_on_disk_example =
    (complete_on_disk fives short_film film_name 1 film-Covers (omega arith)
        (length-replicate {A = ℕ} 8000 5) now_complete.0 done_Reachable).3
      now_complete.1

answered_on_disk_example :
    let whole =
      answered_on_disk
        (Given fives)
        short_film
        film_name
        1
        film-Covers
        (omega arith)
        sized_fives
        now_complete.0
        done_Reachable in
    Given fives 0 (chunk 8000 0 whole.0)
answered_on_disk_example =
    (answered_on_disk (Given fives) short_film film_name 1 film-Covers (omega arith) sized_fives
        now_complete.0 done_Reachable).4
      now_complete.1 0 (omega arith)
