-- ===== src/Client/Swarm/Content.antt =====
-- The workers down to the disk: what a complete segment has on disk, however the workers interleave.
use p2p_network.Base.{
  ◌≤◌, length-take, length-drop, drop, ℕ, ◌*◌, ◌^◌, ◌<◌, ◌≡◌, ◌∙◌, refl, ap, true, some, List,
  arith, length, length-replicate, replicate, Text, returns, get_elem?, get_elem?-lt, Option-cases,
  inl, inr,
}
use p2p_network.Shared.Torrent.{Torrent}
use p2p_network.Client.Segment.{complete}
use p2p_network.Client.File.{File, new_file, is_complete}
use p2p_network.Client.File.States.{state_at, is_complete-Answers}
use p2p_network.Client.File.Segments.{Covers}
use p2p_network.Client.FileManager.Chunks.{chunk, eq_of_chunks}
use p2p_network.Client.Download.Content.{state_at-new_file, there-lt}
use p2p_network.Client.Workers.Safety.{Reach-Inv}
use p2p_network.Client.Swarm.{Given, Swarm, Reachable, start, later}
use p2p_network.Client.Swarm.Disk.{DiskInv, create_local_file-files}
use p2p_network.Client.Swarm.Disk.Moves.{Move-DiskInv}
use p2p_network.Client.Swarm.Simulation.{Reachable-Reach}

module _ (answers : ℕ → Text → Type 0) (t : Torrent) (path : Text) (k : ℕ)
    (covers : Covers k t.size) (small : k * 8000 < 2 ^ 31)
    (sized : (id : ℕ) (bytes : Text) → id < k → answers id bytes → length bytes ≡ 8000) where
  pub Reachable-DiskInv :
      {s : Swarm} → Reachable answers t path s → DiskInv answers t path k covers small sized s
  unfolding new_file
  Reachable-DiskInv (start fm made s e q) =
      let none_complete : (j : ℕ)
          → state_at (new_file t path) j ≡ some complete
          → answers j (chunk 8000 j (replicate t.size 0)) =
        λ j h.
          let was_free =
            state_at-new_file t path k covers small j
              (there-lt t path k covers small j (λ none_there. cc)) in
          absurd cc in
      rw q (record {
        named = refl;
        within = there-lt t path k covers small;
        kept = λ j below none_there.
            ground (arith, state_at-new_file t path k covers small j below, none_there);
        busy = λ w j h. absurd cc;
        came = λ w j b h g. absurd cc;
        disk = replicate t.size 0;
        there = create_local_file-files t fm made e;
        long = omega (arith, length-replicate {A = ℕ} t.size 0);
        short = omega (arith, covers, length-replicate {A = ℕ} t.size 0);
        done = none_complete;
        stored = λ w j h. absurd cc;
      })
  Reachable-DiskInv (later r s before m) =
      Move-DiskInv answers t path k covers small sized r (Reachable-DiskInv before) s m

  all_complete :
      {s : Swarm} {answer : File}
      → Reachable answers t path s
      → DiskInv answers t path k covers small sized s
      → is_complete s.file ≡ returns true answer
      → (j : ℕ) → j < k
      → state_at s.file j ≡ some complete
  all_complete {s} reach inv said j below =
      let (b, f, run, (answers, _), _, _, _) =
        is_complete-Answers s.file
          (Reach-Inv t path (Reachable-Reach answers t path reach)).flagged in
      let yes_it_is : b ≡ true = ground (arith, run, said) in
      answers yes_it_is j (elim (Option-cases (get_elem? s.file.segments j)) [
        | inl missing ↦ absurd (inv.kept j below (ground (arith, missing)))
        | inr (segment, found) ↦ get_elem?-lt s.file.segments j segment found
      ])

  -- A new file, below 2 GiB, whose bytes fill `k` segments, the last one perhaps in part, and peers that
  -- answer anything of 8000 bytes: however many workers the file has and however they interleave, what a
  -- complete segment has on disk is an answer to a request for that segment. When `isComplete` says true,
  -- this holds for all `k` segments, and the file on disk has no byte more.
  pub answered_on_disk :
      {s : Swarm} (answer : File)
      → Reachable answers t path s
      → (disk : List ℕ) × (s.manager.files t.file_name ≡ some disk)
        × (length disk ≤ k * 8000)
        × ((j : ℕ) → state_at s.file j ≡ some complete → answers j (chunk 8000 j disk))
        × (is_complete s.file ≡ returns true answer
            → (j : ℕ) → j < k
            → answers j (chunk 8000 j disk))
  answered_on_disk answer reach =
      let inv = Reachable-DiskInv reach in
      (
        inv.disk,
        inv.there,
        inv.short,
        inv.done,
        λ said j below. inv.done j (all_complete reach inv said j below),
      )

module _ (content : List ℕ) (t : Torrent) (path : Text) (k : ℕ) (covers : Covers k t.size)
    (small : k * 8000 < 2 ^ 31) (full : length content ≡ k * 8000) where
  pub Given-sized : (id : ℕ) (bytes : Text) → id < k → Given content id bytes → length bytes ≡ 8000
  unfolding chunk
  Given-sized id bytes below e =
      ap length e
      ∙ omega (arith, length-take 8000 (drop (id * 8000) content), length-drop (id * 8000) content)

  -- A new file, below 2 GiB, whose bytes fill `k` segments, the last one perhaps in part, and `k` whole
  -- segments of content that its peers answer with: however many workers the file has and however they
  -- interleave, a segment that is complete has its bytes on disk, and when `isComplete` says true, the
  -- file on disk is all `k` whole segments of the content, also where the file of the torrent is shorter.
  pub complete_on_disk :
      {s : Swarm} (answer : File)
      → Reachable (Given content) t path s
      → (disk : List ℕ) × (s.manager.files t.file_name ≡ some disk)
        × ((j : ℕ) → state_at s.file j ≡ some complete → chunk 8000 j disk ≡ chunk 8000 j content)
        × (is_complete s.file ≡ returns true answer → s.manager.files t.file_name ≡ some content)
  complete_on_disk answer reach =
      let (disk, there, short, done, all) =
        answered_on_disk (Given content) t path k covers small Given-sized answer reach in
      (
        disk,
        there,
        done,
        λ said.
            there
            ∙ ap some (eq_of_chunks 8000 k disk content short (omega (arith, full)) (all said)),
      )
