-- ===== src/Client/File.antt =====
-- client/file/File.h and File.cpp: a file that is shared or being downloaded. Each method holds
-- `fileMutex` from its first statement to its last, so a call is one step; `segments[i]` outside of the
-- vector is undefined behaviour.
pub mod Segments
pub mod States
use p2p_network.Base.{
  ℕ, zero, suc, ◌+◌, ◌*◌, ◌/◌, ◌%◌, ◌^◌, Bool, true, false, Option, none, some, List, [], ◌∷◌, ◌++◌,
  ◌==◌, if◌then◌else◌, length, get_elem?, set, Text, Outcome, Action, returns, throws, undefined,
}
use p2p_network.Base.Int.{ℤ, pos, negsuc, rounds, int_of_uint32}
use p2p_network.Shared.{default_segment_size}
use p2p_network.Shared.Torrent.{Torrent, empty_torrent}
use p2p_network.Client.Segment.{
  SegmentState, free, downloading, Segment, PeerInfo, set_state, is_free, is_completed_state,
  is_downloading,
}

pub record File : Type 0 where
  pub torrent : Torrent
  pub segments : List Segment
  pub num_of_segments : ℤ
  pub size : ℤ
  pub path : Text
  pub peers : List PeerInfo
  pub is_completed : Bool

-- The fields as their initialisers leave them. `File(const File &)` has no code, so this is also what
-- it makes of every file.
abbrev pub blank_file : File
blank_file = record {
  torrent = empty_torrent;
  segments = [];
  num_of_segments = negsuc 0;
  size = negsuc 0;
  path = [];
  peers = [];
  is_completed = false;
}

unfoldable pub copy_file : File → File
copy_file other = blank_file

-- -n, and -n + 1.
minus : ℕ → ℤ
minus zero = pos 0
minus (suc n) = negsuc n

one_minus : ℕ → ℤ
unfolding minus
one_minus zero = pos 1
one_minus (suc n) = minus n

-- The two divisions of `generateSegments`; `/` and `%` of C++ round towards zero.
unfoldable pub count_segments : ℤ → ℤ
unfolding minus one_minus
count_segments (pos n) =
    if n % default_segment_size == 0
    then pos (n / default_segment_size)
    else pos (n / default_segment_size + 1)
count_segments (negsuc n) =
    if suc n % default_segment_size == 0
    then minus (suc n / default_segment_size)
    else one_minus (suc n / default_segment_size)

-- The loop of `generateSegments` from `i`, with `n` rounds left.
unfoldable pub make_segments : ℕ → ℕ → List Segment
make_segments i zero = []
make_segments i (suc n) =
    record { id = i; offset = default_segment_size * i; state = free } ∷ make_segments (i + 1) n

-- `File(const Torrent &, std::string)` with its call of `generateSegments`.
unfoldable pub new_file : Torrent → Text → File
unfolding count_segments make_segments
new_file torrent path = record blank_file {
  torrent = torrent;
  segments = segments;
  num_of_segments = pos (length segments);
  size = int_of_uint32 torrent.size;
  path = path;
}
  where
    segments : List Segment
    segments = make_segments 0 (rounds (count_segments (int_of_uint32 torrent.size)))

-- `Id` is `int`: of the 64-bit hash the low 32 bits are left.
unfoldable pub id_of_hash : ℕ → ℤ
id_of_hash hash = int_of_uint32 (hash % 2 ^ 32)

unfoldable pub get_id : File → ℤ
unfolding id_of_hash
get_id f = id_of_hash f.torrent.hashed

unfoldable pub add_peer : File → PeerInfo → File
add_peer f peer = record f { peers = f.peers ++ peer ∷ [] }

put_state : File → ℕ → SegmentState → Segment → File
put_state f id state s = record f { segments = set f.segments id (set_state s state) }

try_found : File → ℕ → Option Segment → Outcome File Bool
unfolding put_state
try_found f id none = undefined
try_found f id (some s) =
    if is_free s.state then returns true (put_state f id downloading s) else returns false f

unfoldable pub try_to_set_segment_state_to_download : ℕ → Action File Bool
unfolding try_found
try_to_set_segment_state_to_download id f = try_found f id (get_elem? f.segments id)

set_found : File → ℕ → SegmentState → Option Segment → Outcome File (Unit {0})
unfolding put_state
set_found f id state none = undefined
set_found f id state (some s) =
    if is_downloading state
    then throws (put_state f id state s)
    else returns tt (put_state f id state s)

-- `setSegmentState` throws for DOWNLOADING, after the state is set.
unfoldable pub set_segment_state : ℕ → SegmentState → Action File (Unit {0})
unfolding set_found
set_segment_state id state f = set_found f id state (get_elem? f.segments id)

segment_found : File → Option Segment → Outcome File Segment
segment_found f none = undefined
segment_found f (some s) = returns s f

unfoldable pub get_segment : ℕ → Action File Segment
unfolding segment_found
get_segment id f = segment_found f (get_elem? f.segments id)

state_found : File → Option Segment → Outcome File SegmentState
state_found f none = undefined
state_found f (some s) = returns s.state f

unfoldable pub get_segment_state : ℕ → Action File SegmentState
unfolding state_found
get_segment_state id f = state_found f (get_elem? f.segments id)

unfoldable pub all_complete : List Segment → Bool
all_complete [] = true
all_complete (s ∷ ss) = if is_completed_state s.state then all_complete ss else false

-- `isComplete` looks at the segments only until it has once found them all complete.
unfoldable pub is_complete : Action File Bool
unfolding all_complete
is_complete f =
    if f.is_completed
    then returns true f
    else returns (all_complete f.segments) (record f { is_completed = all_complete f.segments })
