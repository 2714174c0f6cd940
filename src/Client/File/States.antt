-- ===== src/Client/File/States.antt =====
-- client/file/File.cpp: what the methods do to the states of the segments.
use p2p_network.Base.{
  ℕ, zero, suc, ◌≡◌, ◌≢◌, refl, Bool, true, false, Option, none, some, List, [], ◌∷◌, arith, ◌==◌,
  if◌then◌else◌, length, ◌<◌, ◌≤◌, ◌↔◌, get_elem?-of_le, get_elem?-of_lt, get_elem?, set,
  get_elem?-set_self, get_elem?-lt, Option-cases, inl, inr, returns, undefined,
}
use p2p_network.Client.Segment.{SegmentState, free, downloading, complete, Segment, set_state}
use p2p_network.Client.File.{
  File, try_to_set_segment_state_to_download, set_segment_state, is_complete, all_complete,
}

abbrev pub state_of : Option Segment → Option SegmentState
state_of none = none
state_of (some s) = some s.state

-- The state of segment `i`, if there is such a segment.
abbrev pub state_at : File → ℕ → Option SegmentState
state_at f i = state_of (get_elem? f.segments i)

state_of-set :
    (ss : List Segment) (i j : ℕ) (s : Segment) (state : SegmentState)
    → i < length ss
    → state_of (get_elem? (set ss i (set_state s state)) j)
      ≡ (if i == j then some state else state_of (get_elem? ss j))
unfolding set_state
state_of-set [] i j s state h = elim h [ ]
state_of-set (x ∷ ss) zero zero s state h = refl
state_of-set (x ∷ ss) zero (suc j) s state h = ground arith
state_of-set (x ∷ ss) (suc i) zero s state h = ground arith
state_of-set (x ∷ ss) (suc i) (suc j) s state h = ground (arith, state_of-set ss i j s state)

pub all_complete-state :
    (ss : List Segment) (i : ℕ) (state : SegmentState)
    → all_complete ss ≡ true
    → state_of (get_elem? ss i) ≡ some state
    → state ≡ complete
unfolding all_complete
all_complete-state [] i state h e = cc
all_complete-state (s ∷ ss) zero state h e = ground arith
all_complete-state (s ∷ ss) (suc i) state h e = ground (arith, all_complete-state ss i state)

pub all_complete_of_states :
    (ss : List Segment)
    → ((i : ℕ) → i < length ss → state_of (get_elem? ss i) ≡ some complete)
    → all_complete ss ≡ true
unfolding all_complete
all_complete_of_states [] h = refl
all_complete_of_states (s ∷ ss) h =
    ground (arith, h 0, all_complete_of_states ss (λ i below. h (suc i) (omega arith)))

-- What a claim that succeeds shows and does.
pub try_true :
    (f f' : File) (id : ℕ)
    → try_to_set_segment_state_to_download id f ≡ returns true f'
    → (state_at f id ≡ some free)
      × ((j : ℕ) → state_at f' j ≡ (if id == j then some downloading else state_at f j))
      × (f'.is_completed ≡ f.is_completed)
unfolding try_to_set_segment_state_to_download
try_true f f' id e = elim (Option-cases (get_elem? f.segments id)) [
  | inl out ↦ absurd (ground arith)
  | inr (s, found) ↦ (
    ground arith,
    λ j.
        ground
          (arith, state_of-set f.segments id j s downloading, get_elem?-lt f.segments id s found),
    ground arith,
  )
]

-- A claim that fails changes nothing.
pub try_false :
    (f f' : File) (id : ℕ) → try_to_set_segment_state_to_download id f ≡ returns false f' → f' ≡ f
unfolding try_to_set_segment_state_to_download
try_false f f' id e = ground arith

pub set_returns :
    (f f' : File) (id : ℕ) (state : SegmentState)
    → set_segment_state id state f ≡ returns tt f'
    → ((j : ℕ) → state_at f' j ≡ (if id == j then some state else state_at f j))
      × (f'.is_completed ≡ f.is_completed)
      × (state ≢ downloading)
unfolding set_segment_state
set_returns f f' id state e = elim (Option-cases (get_elem? f.segments id)) [
  | inl out ↦ absurd (ground arith)
  | inr (s, found) ↦ (
    λ j. ground (arith, state_of-set f.segments id j s state, get_elem?-lt f.segments id s found),
    ground arith,
    ground arith,
  )
]

pub set_total :
    (f : File) (id : ℕ) (old state : SegmentState)
    → state_at f id ≡ some old
    → state ≢ downloading
    → (f' : File) × (set_segment_state id state f ≡ returns tt f')
unfolding set_segment_state
set_total f id old state at_id h = elim (Option-cases (get_elem? f.segments id)) [
  | inl out ↦ absurd (ground arith)
  | inr (s, found) ↦ (record f { segments = set f.segments id (set_state s state) }, ground arith)
]

-- A segment can be claimed once: the call on a segment that exists says true exactly if the segment
-- is free. It then is downloading, all other segments keep their states, and the same call on the new
-- file says false; a call that says false changes nothing. A number that names no segment, as a peer
-- may send it, is undefined behaviour.
pub try_to_set_segment_state_to_download-Claims :
    (f : File) (id : ℕ)
    → (state_at f id ≡ some free
        → (f' : File) × (try_to_set_segment_state_to_download id f ≡ returns true f')
          × ((j : ℕ) → state_at f' j ≡ (if id == j then some downloading else state_at f j))
          × (try_to_set_segment_state_to_download id f' ≡ returns false f'))
      × ((state : SegmentState)
          → state ≢ free
          → state_at f id ≡ some state
          → try_to_set_segment_state_to_download id f ≡ returns false f)
      × (length f.segments ≤ id → try_to_set_segment_state_to_download id f ≡ undefined)
unfolding try_to_set_segment_state_to_download set_state
try_to_set_segment_state_to_download-Claims f id = (
  claim (get_elem? f.segments id) refl,
  λ state h at_id. ground arith,
  λ out. ground (arith, get_elem?-of_le f.segments id out),
)
  where
    claim :
        (o : Option Segment)
        → get_elem? f.segments id ≡ o
        → state_of o ≡ some free
        → (f' : File) × (try_to_set_segment_state_to_download id f ≡ returns true f')
          × ((j : ℕ) → state_at f' j ≡ (if id == j then some downloading else state_at f j))
          × (try_to_set_segment_state_to_download id f' ≡ returns false f')
    claim none found is_free = absurd (ground arith)
    claim (some s) found is_free = (
      record f { segments = set f.segments id (set_state s downloading) },
      ground arith,
      λ j. state_of-set f.segments id j s downloading (get_elem?-lt f.segments id s found),
      ground (
        arith,
        get_elem?-set_self f.segments id (set_state s downloading)
            (get_elem?-lt f.segments id s found),
      ),
    )

-- The flag of a file is right: it is set only if every segment is complete.
abbrev pub IsFlagged : File → Type 0
IsFlagged f = f.is_completed ≡ true → all_complete f.segments ≡ true

pub all_complete_iff :
    (ss : List Segment)
    → (all_complete ss ≡ true)
      ↔ ((i : ℕ) → i < length ss → state_of (get_elem? ss i) ≡ some complete)
all_complete_iff ss = (states, all_complete_of_states ss)
  where
    states :
        all_complete ss ≡ true → (i : ℕ) → i < length ss → state_of (get_elem? ss i) ≡ some complete
    states all i below =
        let (s, found) = get_elem?-of_lt ss i below in
        ground (arith, all_complete-state ss i s.state all)

-- On a file whose flag is right, `isComplete` returns, says true exactly if every segment is complete,
-- leaves the segments alone, and stores its answer in the flag, which is right again.
pub is_complete-Answers :
    (f : File)
    → IsFlagged f
    → (answer : Bool) × (f' : File) × (is_complete f ≡ returns answer f')
      × ((answer ≡ true) ↔ ((i : ℕ) → i < length f.segments → state_at f i ≡ some complete))
      × (f'.segments ≡ f.segments)
      × (f'.is_completed ≡ answer)
      × IsFlagged f'
unfolding is_complete
is_complete-Answers f right = (
  all_complete f.segments,
  record f { is_completed = all_complete f.segments },
  ground arith,
  all_complete_iff f.segments,
  refl,
  refl,
  λ h. h,
)
