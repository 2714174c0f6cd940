-- ===== src/Tests/WritersTests.antt =====
-- Two workers that hold the lock of a file of two segments at once.
use p2p_network.Base.{
  ℕ, ◌≡◌, ◌≢◌, ◌∷◌, [], List, refl, true, none, some, ◌<◌, Text, arith, returns, replicate, length,
  length-replicate,
}
use p2p_network.Shared.Torrent.{Torrent, new_torrent}
use p2p_network.Client.File.{File, new_file, try_to_set_segment_state_to_download}
use p2p_network.Client.File.Segments.{Covers}
use p2p_network.Client.FileManager.{FileManager, put, write_lock, create_local_file}
use p2p_network.Client.FileManager.Chunks.{chunk}
use p2p_network.Client.Swarm.{
  Given, Swarm, Reachable, resting, asking, received, locked, assign, claim, receive, lock, start,
  later,
}
use p2p_network.Client.Swarm.Content.{Given-sized}
use p2p_network.Client.Swarm.Writers.{writers_commute}

abbrev name : Text
name = b'f' ∷ []

abbrev two_parts : Torrent
two_parts = new_torrent 9 9000 name

two_parts-Covers : Covers 2 two_parts.size
two_parts-Covers = (omega arith, omega arith)

abbrev content : List ℕ
content = replicate 16000 5

abbrev no_locks : FileManager
no_locks = record { read_locked = []; write_locked = []; files = λ _. none }

abbrev on_disk : FileManager
on_disk = record no_locks { files = put no_locks.files name (replicate 9000 0) }

abbrev begun : Swarm
begun = record { file = new_file two_parts name; manager = on_disk; task = λ _. resting }

made_on_disk : create_local_file true two_parts no_locks ≡ returns tt on_disk
unfolding create_local_file
made_on_disk = refl

first_claimed :
    (f : File) × (try_to_set_segment_state_to_download 0 (new_file two_parts name) ≡ returns true f)
unfolding new_file try_to_set_segment_state_to_download
first_claimed = (_, refl)

second_claimed :
    (f : File) × (try_to_set_segment_state_to_download 1 first_claimed.0 ≡ returns true f)
unfolding first_claimed try_to_set_segment_state_to_download
second_claimed = (_, refl)

abbrev one_asks : Swarm
one_asks = record begun { file = first_claimed.0; task = assign begun.task 7 (asking 0) }

abbrev two_ask : Swarm
two_ask = record one_asks { file = second_claimed.0; task = assign one_asks.task 8 (asking 1) }

abbrev one_came : Swarm
one_came = record two_ask { task = assign two_ask.task 7 (received 0 (chunk 8000 0 content)) }

abbrev two_came : Swarm
two_came = record one_came { task = assign one_came.task 8 (received 1 (chunk 8000 1 content)) }

abbrev one_lock : Swarm
one_lock = record two_came {
  manager = record on_disk { write_locked = name ∷ [] };
  task = assign two_came.task 7 (locked 0 (chunk 8000 0 content));
}

abbrev two_locks : Swarm
two_locks = record one_lock {
  manager = record on_disk { write_locked = name ∷ name ∷ [] };
  task = assign one_lock.task 8 (locked 1 (chunk 8000 1 content));
}

first_locks : write_lock name on_disk ≡ returns tt (record on_disk { write_locked = name ∷ [] })
unfolding write_lock
first_locks = refl

second_locks :
    write_lock name (record on_disk { write_locked = name ∷ [] })
    ≡ returns tt (record on_disk { write_locked = name ∷ name ∷ [] })
unfolding write_lock
second_locks = refl

name_kept : second_claimed.0.torrent.file_name ≡ name
unfolding second_claimed first_claimed try_to_set_segment_state_to_download new_file
name_kept = refl

two_locks-Reachable : Reachable (Given content) two_parts name two_locks
unfolding second_claimed first_claimed try_to_set_segment_state_to_download new_file
two_locks-Reachable =
    later one_lock two_locks
      (later two_came one_lock
        (later one_came two_came
          (later two_ask one_came
            (later one_asks two_ask
              (later begun one_asks (start no_locks on_disk begun made_on_disk refl)
                (claim 7 0 first_claimed.0 refl first_claimed.1 refl))
              (claim 8 1 second_claimed.0 refl second_claimed.1 refl))
            (receive 7 0 (chunk 8000 0 content) refl refl refl))
          (receive 8 1 (chunk 8000 1 content) refl refl refl))
        (lock 7 0 (chunk 8000 0 content) (record on_disk { write_locked = name ∷ [] }) refl
          first_locks refl))
      (lock 8 1 (chunk 8000 1 content) (record on_disk { write_locked = name ∷ name ∷ [] }) refl
        second_locks refl)

seven_eight : ◌≢◌ {A = ℕ} 7 8
seven_eight e = absurd (omega arith)

whole_content : (id : ℕ) (bytes : Text) → id < 2 → Given content id bytes → length bytes ≡ 8000
whole_content =
    Given-sized content two_parts name 2 two_parts-Covers (omega arith)
      (length-replicate {A = ℕ} 16000 5)

writers_commute_example :
    let both =
      writers_commute
        (Given content)
        two_parts
        name
        2
        two_parts-Covers
        (omega arith)
        whole_content
        7
        8
        0
        1
        (chunk 8000 0 content)
        (chunk 8000 1 content)
        two_locks-Reachable
        refl
        refl
        seven_eight in
    both.0.files name ≡ some both.3
writers_commute_example =
    (writers_commute (Given content) two_parts name 2 two_parts-Covers (omega arith) whole_content 7
      8 0 1 (chunk 8000 0 content) (chunk 8000 1 content) two_locks-Reachable refl refl
      seven_eight).7
