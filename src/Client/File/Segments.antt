-- ===== src/Client/File/Segments.antt =====
-- client/file/File.cpp: the segments that the constructor makes of a torrent.
use p2p_network.Base.{
  ℕ, zero, suc, ◌+◌, ◌-◌, ◌*◌, ◌^◌, ◌≤◌, ◌<◌, ◌≡◌, refl, ap, true, false, some, [], arith, length,
  get_elem?, Text, returns,
}
use p2p_network.Base.Int.{pos, negsuc, rounds, int_of_uint32}
use p2p_network.Shared.{default_segment_size}
use p2p_network.Shared.Torrent.{Torrent}
use p2p_network.Client.Segment.{free, Segment}
use p2p_network.Client.File.{new_file, make_segments, count_segments, is_complete}

length-make_segments : (i n : ℕ) → length (make_segments i n) ≡ n
unfolding make_segments
length-make_segments i zero = refl
length-make_segments i (suc n) = ap suc (length-make_segments (i + 1) n)

get_elem?-make_segments :
    (i n k : ℕ)
    → k < n
    → get_elem? (make_segments i n) k
      ≡ some (record { id = i + k; offset = default_segment_size * (i + k); state = free })
unfolding make_segments
get_elem?-make_segments i zero k h = elim h [ ]
get_elem?-make_segments i (suc n) zero h = ground arith
get_elem?-make_segments i (suc n) (suc k) h = ground (arith, get_elem?-make_segments (i + 1) n k)

segment_at :
    (n i : ℕ)
    → i < n
    → get_elem? (make_segments 0 n) i ≡ some (record { id = i; offset = 8000 * i; state = free })
segment_at n i h = ground (arith, get_elem?-make_segments 0 n i)

-- The rounds of the loop for a size that fits an `int`: enough for all bytes, and not one too many.
count_segments_bounds :
    (n : ℕ)
    → (n ≤ rounds (count_segments (pos n)) * 8000)
      × (rounds (count_segments (pos n)) * 8000 < n + 8000)
unfolding count_segments
count_segments_bounds n = ground arith

count_segments_negative : (m : ℕ) → 8000 ≤ suc m → rounds (count_segments (negsuc m)) ≡ 0
unfolding count_segments
count_segments_negative m h = ground arith

int_of_uint32-small : (n : ℕ) → n < 2 ^ 31 → int_of_uint32 n ≡ pos n
int_of_uint32-small n h = ground arith

int_of_uint32-large : (n : ℕ) → 2 ^ 31 ≤ n → n < 2 ^ 32 → int_of_uint32 n ≡ negsuc (2 ^ 32 - 1 - n)
int_of_uint32-large n lo hi = ground arith

-- The bytes of a file fill `k` segments, the last one perhaps in part.
abbrev pub Covers : ℕ → ℕ → Type 0
Covers k size = (size ≤ k * 8000) × (k * 8000 < size + 8000)

-- A file of a torrent below 2^31 bytes has as many segments as its bytes fill, the last one perhaps
-- in part: segment `i` has the id `i` and the offset `8000 * i`, which does not pass the largest
-- `int`, and is free. The stored number of segments is their number.
pub new_file-segments :
    (t : Torrent) (path : Text)
    → t.size < 2 ^ 31
    → let f = new_file t path in
      (t.size ≤ length f.segments * 8000)
      × (length f.segments * 8000 < t.size + 8000)
      × (f.num_of_segments ≡ pos (length f.segments))
      × ((i : ℕ)
          → i < length f.segments
          → (get_elem? f.segments i ≡ some (record { id = i; offset = 8000 * i; state = free }))
            × (8000 * i < 2 ^ 31))
unfolding new_file
new_file-segments t path h = rw (int_of_uint32-small t.size h) (
  omega (arith, fits.0, len),
  omega (arith, fits.1, len),
  refl,
  λ i below. (segment_at n i (omega (arith, len)), omega (arith, fits.1, len)),
)
  where
    n : ℕ
    n = rounds (count_segments (pos t.size))

    fits : (t.size ≤ n * 8000) × (n * 8000 < t.size + 8000)
    fits = count_segments_bounds t.size

    len : length (make_segments 0 n) ≡ n
    len = length-make_segments 0 n

-- A torrent of 2^31 bytes or more, but for the last 8000 sizes, makes a file with no segments, since
-- its size is negative as an `int`; `isComplete` says at once that it is complete.
pub new_file_too_large :
    (t : Torrent) (path : Text)
    → 2 ^ 31 ≤ t.size
    → t.size + 8000 ≤ 2 ^ 32
    → ((new_file t path).segments ≡ [])
      × (is_complete (new_file t path)
          ≡ returns true (record (new_file t path) { is_completed = true }))
unfolding new_file is_complete
new_file_too_large t path lo hi =
    rw (int_of_uint32-large t.size lo (omega arith), none_made) (refl, refl)
  where
    none_made : rounds (count_segments (negsuc (2 ^ 32 - 1 - t.size))) ≡ 0
    none_made = count_segments_negative (2 ^ 32 - 1 - t.size) (omega arith)

make_segments-free :
    (i n k : ℕ) (s : Segment) → get_elem? (make_segments i n) k ≡ some s → s.state ≡ free
unfolding make_segments
make_segments-free i zero k s h = absurd (ground arith)
make_segments-free i (suc n) zero s h = ground arith
make_segments-free i (suc n) (suc k) s h = make_segments-free (i + 1) n k s h

-- Every segment of a new file is free, and its flag is not set.
pub new_file-free :
    (t : Torrent) (path : Text) (k : ℕ) (s : Segment)
    → get_elem? (new_file t path).segments k ≡ some s
    → (s.state ≡ free) × ((new_file t path).is_completed ≡ false)
unfolding new_file
new_file-free t path k s h =
    (make_segments-free 0 (rounds (count_segments (int_of_uint32 t.size))) k s h, refl)
