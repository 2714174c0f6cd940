-- ===== src/Client/Swarm/Disk/Moves.antt =====
-- The workers down to the disk: each of their moves keeps the invariant of the disk.
use p2p_network.Base.{
  ◌≤◌, ℕ, ◌*◌, ◌^◌, ◌<◌, ◌≡◌, ◌∙◌, ap, subst, Bool, true, some, List, arith, length, Text, returns,
  Bool-cases, inl, inr, ◌==◌, if◌then◌else◌,
}
use p2p_network.Shared.Torrent.{Torrent}
use p2p_network.Client.Segment.{SegmentState, free, complete}
use p2p_network.Client.File.{
  File, try_to_set_segment_state_to_download, set_segment_state, is_complete,
}
use p2p_network.Client.File.States.{try_true, try_false, set_returns}
use p2p_network.Client.File.Segments.{Covers}
use p2p_network.Client.FileManager.{FileManager, write_at, write_lock, write_segment}
use p2p_network.Client.FileManager.Chunks.{chunk, chunk-write_at, length-write_at_max}
use p2p_network.Client.Download.Fragments.{try_torrent, set_torrent}
use p2p_network.Client.Swarm.{
  resting, asking, received, locked, written, Swarm, assign, Move, claim, pass, give_back, receive,
  lock, write, finish, look,
}
use p2p_network.Client.Swarm.Disk.{DiskInv, write_lock-files, write_segment-files, about, held}

module _ (answers : ℕ → Text → Type 0) (t : Torrent) (path : Text) (k : ℕ)
    (covers : Covers k t.size) (small : k * 8000 < 2 ^ 31)
    (sized : (id : ℕ) (bytes : Text) → id < k → answers id bytes → length bytes ≡ 8000) where
  other_names : {i j : ℕ} {a b : Text} → i ≡ j → a ≡ b → answers i a → answers j b
  other_names {i} {b = b} p q h = subst (λ x. answers x b) p (subst (answers i) q h)

  module _ (s : Swarm) (inv : DiskInv answers t path k covers small sized s) where
    open inv use {named, within, kept, busy, came, disk, there, long, short, done, stored}

    claim-DiskInv :
        (w id : ℕ) (f : File)
        → try_to_set_segment_state_to_download id s.file ≡ returns true f
        → DiskInv answers t path k covers small sized
            (record s { file = f; task = assign s.task w (asking id) })
    claim-DiskInv w id f e =
        let (was_free, states, _) = try_true s.file f id e in
        let below : id < k = within id (λ h. cc) in
        record {
          named = ap (λ x. x.file_name) (try_torrent s.file f id e) ∙ named;
          within = λ j h. elim (Bool-cases (id == j)) [
            | inl same ↦ ground (arith, same, below)
            | inr other ↦ within j (λ none_there. h (ground (arith, states j, other, none_there)))
          ];
          kept = λ j h e'. elim (Bool-cases (id == j)) [
            | inl same ↦ absurd (ground (arith, states j, same, e'))
            | inr other ↦ kept j h (ground (arith, states j, other, e'))
          ];
          busy = λ v j h. ground (arith, busy v j, below);
          came = λ v j b h g. ground (arith, came v j b);
          disk = disk;
          there = there;
          long = long;
          short = short;
          done = λ j h. ground (arith, states j, done j);
          stored = λ v j h. ground (arith, stored v j);
        }

    settle-DiskInv :
        (w id : ℕ) (state : SegmentState) (f : File)
        → about (s.task w) ≡ some id
        → set_segment_state id state s.file ≡ returns tt f
        → (state ≡ complete → answers id (chunk 8000 id disk))
        → DiskInv answers t path k covers small sized
            (record s { file = f; task = assign s.task w resting })
    settle-DiskInv w id state f here e right =
        let (states, _, _) = set_returns s.file f id state e in
        let below : id < k = busy w id here in
        record {
          named = ap (λ x. x.file_name) (set_torrent s.file f id state e) ∙ named;
          within = λ j h. elim (Bool-cases (id == j)) [
            | inl same ↦ ground (arith, same, below)
            | inr other ↦ within j (λ none_there. h (ground (arith, states j, other, none_there)))
          ];
          kept = λ j h e'. elim (Bool-cases (id == j)) [
            | inl same ↦ absurd (ground (arith, states j, same, e'))
            | inr other ↦ kept j h (ground (arith, states j, other, e'))
          ];
          busy = λ v j h. ground (arith, busy v j);
          came = λ v j b h g. ground (arith, came v j b);
          disk = disk;
          there = there;
          long = long;
          short = short;
          done = λ j h. elim (Bool-cases (id == j)) [
            | inl same ↦
                let eq : id ≡ j = ground (arith, same) in
                subst (λ x. answers x (chunk 8000 x disk)) eq
                  (right (ground (arith, states j, same, h)))
            | inr other ↦ done j (ground (arith, states j, other, h))
          ];
          stored = λ v j h. ground (arith, stored v j);
        }

    receive-DiskInv :
        (w id : ℕ) (bytes : Text)
        → s.task w ≡ asking id
        → answers id bytes
        → DiskInv answers t path k covers small sized
            (record s { task = assign s.task w (received id bytes) })
    receive-DiskInv w id bytes here a =
        let below : id < k = busy w id (ap about here) in
        record {
          named = named;
          within = within;
          kept = kept;
          busy = λ v j h. ground (arith, busy v j, below);
          came = λ v j b h g. elim (Bool-cases (w == v)) [
            | inl same ↦ other_names (ground (arith, same, h)) (ground (arith, same, g)) a
            | inr other ↦ came v j b (ground (arith, other, h)) (ground (arith, other, g))
          ];
          disk = disk;
          there = there;
          long = long;
          short = short;
          done = done;
          stored = λ v j h. ground (arith, stored v j);
        }

    lock-DiskInv :
        (w id : ℕ) (bytes : Text) (m : FileManager)
        → s.task w ≡ received id bytes
        → write_lock s.file.torrent.file_name s.manager ≡ returns tt m
        → DiskInv answers t path k covers small sized
            (record s { manager = m; task = assign s.task w (locked id bytes) })
    lock-DiskInv w id bytes m here e =
        let below : id < k = busy w id (ap about here) in
        let mine : answers id bytes = came w id bytes (ap about here) (ap held here) in
        record {
          named = named;
          within = within;
          kept = kept;
          busy = λ v j h. ground (arith, busy v j, below);
          came = λ v j b h g. elim (Bool-cases (w == v)) [
            | inl same ↦ other_names (ground (arith, same, h)) (ground (arith, same, g)) mine
            | inr other ↦ came v j b (ground (arith, other, h)) (ground (arith, other, g))
          ];
          disk = disk;
          there =
              ap (λ g. g t.file_name) (write_lock-files s.manager m s.file.torrent.file_name e)
              ∙ there;
          long = long;
          short = short;
          done = done;
          stored = λ v j h. ground (arith, stored v j);
        }

    write-DiskInv :
        (w id : ℕ) (bytes : Text) (m : FileManager)
        → s.task w ≡ locked id bytes
        → write_segment s.file.torrent.file_name id bytes
            (s.manager.files s.file.torrent.file_name)
            s.manager
          ≡ returns tt m
        → DiskInv answers t path k covers small sized
            (record s { manager = m; task = assign s.task w (written id) })
    write-DiskInv w id bytes m here e =
        let below : id < k = busy w id (ap about here) in
        let mine : answers id bytes = came w id bytes (ap about here) (ap held here) in
        let whole : length bytes ≡ 8000 = sized id bytes below mine in
        let new : List ℕ = write_at disk (id * 8000) bytes in
        let inside : id * 8000 ≤ length disk = omega (arith, long, covers, below) in
        let grown = length-write_at_max disk bytes (id * 8000) inside in
        let called : write_segment t.file_name id bytes (s.manager.files t.file_name) s.manager
            ≡ returns tt m =
          subst (λ n. write_segment n id bytes (s.manager.files n) s.manager ≡ returns tt m) named
            e in
        let chunks : (j : ℕ) → chunk 8000 j new ≡ (if id == j then bytes else chunk 8000 j disk) =
          λ j. chunk-write_at 8000 id j bytes disk whole inside in
        let still : (j : ℕ) → answers j (chunk 8000 j disk) → answers j (chunk 8000 j new) = λ j h.
          elim (Bool-cases (id == j)) [
            | inl same ↦
                let eq : id ≡ j = ground (arith, same) in
                let now : bytes ≡ chunk 8000 j new = ground (arith, chunks j, same) in
                other_names eq now mine
            | inr other ↦
                let kept_there : chunk 8000 j disk ≡ chunk 8000 j new =
                  ground (arith, chunks j, other) in
                subst (answers j) kept_there h
          ] in
        record {
          named = named;
          within = within;
          kept = kept;
          busy = λ v j h. ground (arith, busy v j, below);
          came = λ v j b h g. elim (Bool-cases (w == v)) [
            | inl same ↦ absurd (ground (arith, same, g))
            | inr other ↦ came v j b (ground (arith, other, h)) (ground (arith, other, g))
          ];
          disk = new;
          there =
              write_segment-files s.manager m t.file_name id bytes disk whole (omega (arith, below))
                there called;
          long = omega (arith, long, grown);
          short = omega (arith, short, whole, below, grown);
          done = λ j h. still j (done j h);
          stored = λ v j h. elim (Bool-cases (w == v)) [
            | inl same ↦
                let eq : id ≡ j = ground (arith, same, h) in
                let first : chunk 8000 id new ≡ bytes = ground (arith, chunks id) in
                subst (λ x. answers x (chunk 8000 x new)) eq (rw first mine)
            | inr other ↦ still j (stored v j (ground (arith, other, h)))
          ];
        }

    look-DiskInv :
        (answer : Bool) (f : File)
        → is_complete s.file ≡ returns answer f
        → DiskInv answers t path k covers small sized (record s { file = f })
    unfolding is_complete
    look-DiskInv answer f e =
        let same : f.segments ≡ s.file.segments = ground arith in
        let torrent : f.torrent ≡ s.file.torrent = ground arith in
        record {
          named = ap (λ x. x.file_name) torrent ∙ named;
          within = λ j h. within j (λ none_there. h (rw same none_there));
          kept = λ j h none_there. kept j h (rw same at none_there);
          busy = busy;
          came = came;
          disk = disk;
          there = there;
          long = long;
          short = short;
          done = λ j h. done j (rw same at h);
          stored = stored;
        }

    pub Move-DiskInv :
        (u : Swarm) → Move answers s u → DiskInv answers t path k covers small sized u
    Move-DiskInv u (claim w id f here e q) = rw q (claim-DiskInv w id f e)
    Move-DiskInv u (pass w id f here e q) = rw (q, try_false s.file f id e) inv
    Move-DiskInv u (give_back w id f here e q) =
        rw q (settle-DiskInv w id free f (ap about here) e (λ h. cc))
    Move-DiskInv u (receive w id bytes here a q) = rw q (receive-DiskInv w id bytes here a)
    Move-DiskInv u (lock w id bytes m here e q) = rw q (lock-DiskInv w id bytes m here e)
    Move-DiskInv u (write w id bytes m here e q) = rw q (write-DiskInv w id bytes m here e)
    Move-DiskInv u (finish w id f here e q) =
        rw q (settle-DiskInv w id complete f (ap about here) e (λ _. stored w id here))
    Move-DiskInv u (look answer f e q) = rw q (look-DiskInv answer f e)
