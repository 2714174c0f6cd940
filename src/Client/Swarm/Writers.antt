-- ===== src/Client/Swarm/Writers.antt =====
-- The workers down to the disk: `writeLock` does not wait for other writers, so that several of them may
-- write at a time.
use p2p_network.Base.{
  ℕ, ◌*◌, ◌≤◌, ◌<◌, ◌^◌, ◌≡◌, ◌≢◌, ◌∙◌, sym, ap, some, List, arith, ◌==◌, if◌then◌else◌, length,
  Text, Outcome, then_run, returns,
}
use p2p_network.Shared.Torrent.{Torrent}
use p2p_network.Client.File.Segments.{Covers}
use p2p_network.Client.FileManager.{FileManager, write_at, write_segment}
use p2p_network.Client.FileManager.Chunks.{chunk, chunk-write_at, length-write_at_max, eq_of_chunks}
use p2p_network.Client.Workers.{fetching}
use p2p_network.Client.Workers.Safety.{segment_fetched_once}
use p2p_network.Client.Swarm.{Swarm, locked, Reachable}
use p2p_network.Client.Swarm.Disk.{about, held, write_segment-files}
use p2p_network.Client.Swarm.Content.{Reachable-DiskInv}
use p2p_network.Client.Swarm.Progress.{write_segment-runs}
use p2p_network.Client.Swarm.Simulation.{Reachable-Reach, pc_of}

-- The end of `storeSegmentToFile` for the segment `i`, and then for `j`.
abbrev pub both_written : Text → FileManager → ℕ → Text → ℕ → Text → Outcome FileManager (Unit {0})
both_written name fm i a j b =
    then_run (write_segment name i a (fm.files name) fm)
      (λ _ m. write_segment name j b (m.files name) m)

-- What is in the chunks of a file where `a` was written to the segment `i`, and then `b` to `j`.
abbrev chunks_after : List ℕ → ℕ → Text → ℕ → Text → ℕ → List ℕ
chunks_after disk i a j b l = if j == l then b else if i == l then a else chunk 8000 l disk

chunks_swap :
    (disk : List ℕ) (i : ℕ) (a : Text) (j : ℕ) (b : Text) (l : ℕ)
    → i ≢ j
    → chunks_after disk i a j b l ≡ chunks_after disk j b i a l
chunks_swap disk i a j b l differ = ground (arith, differ)

module _ (k : ℕ) (small : k * 8000 < 2 ^ 31) (name : Text) where
  -- One write, of a whole segment that starts within the file.
  one_written :
      (fm : FileManager) (disk : List ℕ) (i : ℕ) (a : Text)
      → fm.files name ≡ some disk
      → length a ≡ 8000
      → i < k
      → (m : FileManager) × (write_segment name i a (fm.files name) fm ≡ returns tt m)
        × (m.files name ≡ some (write_at disk (i * 8000) a))
  one_written fm disk i a there full below =
      let (m, run) = write_segment-runs fm name i a disk full (omega (arith, below, small)) there in
      (m, run, write_segment-files fm m name i a disk full (omega (arith, below, small)) there run)

  two_written :
      (fm : FileManager) (disk : List ℕ) (i j : ℕ) (a b : Text)
      → fm.files name ≡ some disk
      → length disk ≤ k * 8000
      → length a ≡ 8000
      → length b ≡ 8000
      → i < k
      → j < k
      → i * 8000 ≤ length disk
      → j * 8000 ≤ length disk
      → (m : FileManager) × (after : List ℕ) × (both_written name fm i a j b ≡ returns tt m)
        × (m.files name ≡ some after)
        × (length after ≤ k * 8000)
        × ((l : ℕ) → chunk 8000 l after ≡ chunks_after disk i a j b l)
  two_written fm disk i j a b there len len_a len_b i_k j_k i_in j_in =
      let (m1, run1, there1) = one_written fm disk i a there len_a i_k in
      let mid : List ℕ = write_at disk (i * 8000) a in
      let len1 = length-write_at_max disk a (i * 8000) i_in in
      let (m, run, there2) = one_written m1 mid j b there1 len_b j_k in
      let j_in1 : j * 8000 ≤ length mid = omega (arith, len1, j_in) in
      let len2 = length-write_at_max mid b (j * 8000) j_in1 in
      (
        m,
        write_at mid (j * 8000) b,
        rw run1 run,
        there2,
        omega (arith, len, len1, len2, len_a, len_b, i_k, j_k),
        λ l. ground (
          arith,
          chunk-write_at 8000 j l b mid len_b j_in1,
          chunk-write_at 8000 i l a disk len_a i_in,
        ),
      )

module _ (answers : ℕ → Text → Type 0) (t : Torrent) (path : Text) (k : ℕ)
    (covers : Covers k t.size) (small : k * 8000 < 2 ^ 31)
    (sized : (id : ℕ) (bytes : Text) → id < k → answers id bytes → length bytes ≡ 8000) where
  -- A new file, below 2 GiB, whose bytes fill `k` segments, the last one perhaps in part, and peers whose
  -- answers, other than `F_ERROR`, have 8000 bytes each. When two workers both stand between `writeLock` and
  -- `writeUnlock`, it does not matter which of them writes first: in both orders both writes return, and
  -- the bytes of the file are the same. They hold what each worker had for its segment, and in every other
  -- segment what was there before.
  pub writers_commute :
      {s : Swarm} (v w i j : ℕ) (a b : Text)
      → Reachable answers t path s
      → s.task v ≡ locked i a
      → s.task w ≡ locked j b
      → v ≢ w
      → (m m' : FileManager) × (before after : List ℕ) × (s.manager.files t.file_name ≡ some before)
        × (both_written t.file_name s.manager i a j b ≡ returns tt m)
        × (both_written t.file_name s.manager j b i a ≡ returns tt m')
        × (m.files t.file_name ≡ some after)
        × (m'.files t.file_name ≡ some after)
        × (chunk 8000 i after ≡ a)
        × (chunk 8000 j after ≡ b)
        × ((l : ℕ) → l ≢ i → l ≢ j → chunk 8000 l after ≡ chunk 8000 l before)
  writers_commute {s} v w i j a b reach at_v at_w differ =
      let inv = Reachable-DiskInv answers t path k covers small sized reach in
      let i_k : i < k = inv.busy v i (ap about at_v) in
      let j_k : j < k = inv.busy w j (ap about at_w) in
      let len_a = sized i a i_k (inv.came v i a (ap about at_v) (ap held at_v)) in
      let len_b = sized j b j_k (inv.came w j b (ap about at_w) (ap held at_w)) in
      let other : i ≢ j = λ same. differ (
        (segment_fetched_once t path v w i (Reachable-Reach answers t path reach)).0 (ap pc_of at_v)
          (ap pc_of at_w ∙ ap fetching (sym same))) in
      let i_in : i * 8000 ≤ length inv.disk = omega (arith, inv.long, covers, i_k) in
      let j_in : j * 8000 ≤ length inv.disk = omega (arith, inv.long, covers, j_k) in
      let (m, after, run, there, len, chunks) =
        two_written k small t.file_name s.manager inv.disk i j a b inv.there inv.short len_a len_b
          i_k j_k i_in j_in in
      let (m', after', run', there', len', chunks') =
        two_written k small t.file_name s.manager inv.disk j i b a inv.there inv.short len_b len_a
          j_k i_k j_in i_in in
      let same : after' ≡ after = eq_of_chunks 8000 k after' after len' len (λ l below.
        chunks' l ∙ chunks_swap inv.disk j b i a l (λ e. other (sym e)) ∙ sym (chunks l)) in
      (
        m,
        m',
        inv.disk,
        after,
        inv.there,
        run,
        run',
        there,
        there' ∙ ap some same,
        ground (arith, chunks i, other),
        ground (arith, chunks j),
        λ l not_i not_j. ground (arith, chunks l, not_i, not_j),
      )
