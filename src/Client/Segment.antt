-- ===== src/Client/Segment.antt =====
-- client/file/Segment.h, Segment.cpp and PeerInfo.h: one segment of a file, and a peer.
use p2p_network.Base.{ℕ, Bool, true, false, Text}

pub data SegmentState : Type 0 where
  free downloading complete : SegmentState

-- `data` is an offset from the file's `dataBegin`, which is null.
pub record Segment : Type 0 where
  pub id : ℕ
  pub offset : ℕ
  pub state : SegmentState

pub record PeerInfo : Type 0 where
  pub id : ℕ
  pub ipv4_address : Text
  pub ipv6_address : Text
  pub port : ℕ

unfoldable pub set_state : Segment → SegmentState → Segment
set_state s state = record s { state = state }

abbrev pub is_free : SegmentState → Bool
is_free free = true
is_free _ = false

abbrev pub is_completed_state : SegmentState → Bool
is_completed_state complete = true
is_completed_state _ = false

abbrev pub is_downloading : SegmentState → Bool
is_downloading downloading = true
is_downloading _ = false

claimed : SegmentState → Segment → Segment × Bool
claimed free s = (set_state s downloading, true)
claimed _ s = (s, false)

-- `tryToSetToDownload`
unfoldable pub try_to_set_to_download : Segment → Segment × Bool
unfolding claimed
try_to_set_to_download s = claimed s.state s
