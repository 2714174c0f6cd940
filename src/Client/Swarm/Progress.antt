-- ===== src/Client/Swarm/Progress.antt =====
-- The workers down to the disk: none of them gets stuck.
use p2p_network.Base.{
  ℕ, ◌*◌, ◌^◌, ◌<◌, ◌≡◌, ◌≢◌, refl, ap, sym, subst, false, some, List, ◌++◌, ◌∷◌, [], arith, length,
  Text, returns, ==_refl,
}
use p2p_network.Shared.Torrent.{Torrent}
use p2p_network.Client.Segment.{downloading, complete}
use p2p_network.Client.File.States.{set_total}
use p2p_network.Client.File.Segments.{Covers}
use p2p_network.Client.FileManager.{
  FileManager, is_read_locked, put, write_at, erase_first, write_lock, write_unlock, write_segment,
}
use p2p_network.Client.FileManager.Storing.{write_segment-found}
use p2p_network.Client.Workers.Safety.{Reach-Inv}
use p2p_network.Client.Swarm.{
  Task, resting, asking, received, locked, written, Swarm, assign, Move, receive, lock, write,
  finish, Reachable,
}
use p2p_network.Client.Swarm.Disk.{DiskInv, about, held}
use p2p_network.Client.Swarm.Content.{Reachable-DiskInv}
use p2p_network.Client.Swarm.Simulation.{Reachable-Reach, pc_of}

-- A worker's task after it has made a move of its own.
abbrev pub next_task : (ℕ → Text) → Task → Task
next_task reply resting = resting
next_task reply (asking id) = received id (reply id)
next_task reply (received id bytes) = locked id bytes
next_task reply (locked id bytes) = written id
next_task reply (written id) = resting

assign_self : (task : ℕ → Task) (w : ℕ) (p : Task) → assign task w p w ≡ p
assign_self task w p = rw (==_refl w)

write_lock-free :
    (fm : FileManager) (name : Text)
    → is_read_locked fm name ≡ false
    → (m : FileManager) × (write_lock name fm ≡ returns tt m)
unfolding write_lock
write_lock-free fm name unread =
    (record fm { write_locked = fm.write_locked ++ name ∷ [] }, rw unread)

pub write_segment-runs :
    (fm : FileManager) (name : Text) (id : ℕ) (bytes disk : List ℕ)
    → length bytes ≡ 8000
    → id * 8000 < 2 ^ 31
    → fm.files name ≡ some disk
    → (m : FileManager) × (write_segment name id bytes (fm.files name) fm ≡ returns tt m)
unfolding write_unlock
write_segment-runs fm name id bytes disk full small there =
    let m : FileManager = record fm {
      files = put fm.files name (write_at disk (id * 8000) bytes);
      write_locked = erase_first name fm.write_locked;
    } in
    (
      m,
      subst (λ o. write_segment name id bytes o fm ≡ returns tt m) (sym there)
          (write_segment-found fm name id bytes disk full small),
    )

module _ (answers : ℕ → Text → Type 0) (t : Torrent) (path : Text) (k : ℕ)
    (covers : Covers k t.size) (small : k * 8000 < 2 ^ 31)
    (sized : (id : ℕ) (bytes : Text) → id < k → answers id bytes → length bytes ≡ 8000)
    (reply : ℕ → Text) (replies : (id : ℕ) → id < k → answers id (reply id)) where
  -- A new file, below 2 GiB, whose bytes fill `k` segments, the last one perhaps in part, and peers whose
  -- answers, other than `F_ERROR`, have 8000 bytes each. In every reachable state, while nobody reads the
  -- file, each worker that is about a segment can make the next move of its own, with no exception and
  -- nothing undefined: an answer that the peers may give can come, the lock can be had, the bytes can be
  -- written, and the segment can be completed.
  pub worker_moves :
      {s : Swarm} (w : ℕ)
      → Reachable answers t path s
      → is_read_locked s.manager t.file_name ≡ false
      → s.task w ≢ resting
      → (u : Swarm) × Move answers s u × (u.task w ≡ next_task reply (s.task w))
  worker_moves {s} w reach unread busy = from (s.task w) refl
    where
      inv : DiskInv answers t path k covers small sized s
      inv = Reachable-DiskInv answers t path k covers small sized reach

      from :
          (p : Task)
          → s.task w ≡ p
          → (u : Swarm) × Move answers s u × (u.task w ≡ next_task reply p)
      from resting here = absurd (busy here)
      from (asking id) here = (
        record s { task = assign s.task w (received id (reply id)) },
        receive w id (reply id) here (replies id (inv.busy w id (ap about here))) refl,
        assign_self s.task w (received id (reply id)),
      )
      from (received id bytes) here =
          let (m, locks) =
            write_lock-free s.manager s.file.torrent.file_name (rw inv.named unread) in
          (
            record s { manager = m; task = assign s.task w (locked id bytes) },
            lock w id bytes m here locks refl,
            assign_self s.task w (locked id bytes),
          )
      from (locked id bytes) here =
          let below : id < k = inv.busy w id (ap about here) in
          let whole : length bytes ≡ 8000 =
            sized id bytes below (inv.came w id bytes (ap about here) (ap held here)) in
          let (m, writes) =
            subst
              (λ n.
                (m : FileManager) × (write_segment n id bytes (s.manager.files n) s.manager
                  ≡ returns tt m))
              (sym inv.named)
              (write_segment-runs s.manager t.file_name id bytes inv.disk whole
                (omega (arith, below)) inv.there) in
          (
            record s { manager = m; task = assign s.task w (written id) },
            write w id bytes m here writes refl,
            assign_self s.task w (written id),
          )
      from (written id) here =
          let mine =
            (Reach-Inv t path (Reachable-Reach answers t path reach)).owner w id (ap pc_of here) in
          let (f, settles) = set_total s.file id downloading complete mine (λ e. cc) in
          (
            record s { file = f; task = assign s.task w resting },
            finish w id f here settles refl,
            assign_self s.task w resting,
          )
