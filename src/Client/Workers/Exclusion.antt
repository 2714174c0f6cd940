-- ===== src/Client/Workers/Exclusion.antt =====
-- client/download/DownloadWorker.cpp, client/file/File.cpp: no segment is fetched twice at a time, and
-- what is complete stays so.
use p2p_network.Base.{
  ℕ, ◌≡◌, ◌≢◌, inl, inr, Bool, true, false, some, arith, returns, Bool-cases, ◌==◌,
}
use p2p_network.Client.Segment.{SegmentState, free, downloading, complete}
use p2p_network.Client.File.{
  File, try_to_set_segment_state_to_download, set_segment_state, is_complete,
}
use p2p_network.Client.File.States.{
  state_at, IsFlagged, all_complete-state, try_true, try_false, set_returns,
}
use p2p_network.Client.Workers.{
  idle, fetching, System, at, Step, claim, pass, give_back, finish, look,
}

pub record Inv (s : System) : Type 0 where
  pub owner : (w id : ℕ) → s.pc w ≡ fetching id → state_at s.file id ≡ some downloading
  pub unique : (v w id : ℕ) → s.pc v ≡ fetching id → s.pc w ≡ fetching id → v ≡ w
  pub owned : (id : ℕ) → state_at s.file id ≡ some downloading → (w : ℕ) × (s.pc w ≡ fetching id)
  pub flagged : IsFlagged s.file

-- A claimed segment is not complete, so the flag cannot be set.
not_flagged :
    (f : File) (id : ℕ) (state : SegmentState)
    → IsFlagged f
    → state_at f id ≡ some state
    → state ≢ complete
    → f.is_completed ≡ false
not_flagged f id state flag at_id h = elim (Bool-cases f.is_completed) [
  | inl set ↦ absurd (h (all_complete-state f.segments id state (flag set) at_id))
  | inr unset ↦ unset
]

module _ (s : System) (inv : Inv s) where
  open inv use {owner, unique, owned, flagged}

  claim-Inv :
      (w id : ℕ) (f : File)
      → s.pc w ≡ idle
      → try_to_set_segment_state_to_download id s.file ≡ returns true f
      → Inv (record { file = f; pc = at s.pc w (fetching id) })
  claim-Inv w id f here e =
      let (was_free, states, flag) = try_true s.file f id e in
      record {
        owner = λ v k h. ground (arith, states k, owner v k, was_free);
        unique = λ u v k p q. ground (arith, unique u v k, owner u k, owner v k, was_free);
        owned = λ k h. elim (Bool-cases (id == k)) [
          | inl this ↦ (w, ground arith)
          | inr other ↦ let (v, p) = owned k (ground (arith, states k)) in (v, ground arith)
        ];
        flagged = λ set. cc (set, flag, not_flagged s.file id free flagged was_free (λ x. cc));
      }

  -- The worker gives its segment up, free or complete.
  release-Inv :
      (w id : ℕ) (state : SegmentState) (f : File)
      → s.pc w ≡ fetching id
      → set_segment_state id state s.file ≡ returns tt f
      → Inv (record { file = f; pc = at s.pc w idle })
  release-Inv w id state f here e =
      let (states, flag, settled) = set_returns s.file f id state e in
      let mine = owner w id here in
      record {
        owner = λ v k h. ground (arith, states k, owner v k, unique v w id);
        unique = λ u v k p q. ground (arith, unique u v k);
        owned = λ k h. elim (Bool-cases (id == k)) [
          | inl this ↦ absurd (ground (arith, states k))
          | inr other ↦ let (v, p) = owned k (ground (arith, states k)) in (v, ground arith)
        ];
        flagged = λ set. cc (set, flag, not_flagged s.file id downloading flagged mine (λ x. cc));
      }

  look-Inv :
      (answer : Bool) (f : File)
      → is_complete s.file ≡ returns answer f
      → Inv (record { file = f; pc = s.pc })
  unfolding is_complete
  look-Inv answer f e =
      let same : f.segments ≡ s.file.segments = ground arith in
      record {
        owner = λ w k h. rw same (owner w k h);
        unique = unique;
        owned = λ k h. owned k (rw same at h);
        flagged = λ set. ground arith;
      }

  pub Step-Inv : (t : System) → Step s t → Inv t
  Step-Inv t (claim w id f here e q) = rw q (claim-Inv w id f here e)
  Step-Inv t (pass w id f here e q) = rw (q, try_false s.file f id e) inv
  Step-Inv t (give_back w id f here e q) = rw q (release-Inv w id free f here e)
  Step-Inv t (finish w id f here e q) = rw q (release-Inv w id complete f here e)
  Step-Inv t (look answer f e q) = rw q (look-Inv answer f e)

  -- What is complete stays complete.
  pub Step-complete :
      (t : System) (k : ℕ)
      → Step s t
      → state_at s.file k ≡ some complete
      → state_at t.file k ≡ some complete
  unfolding is_complete
  Step-complete t k (claim w id f here e q) done =
      let (was_free, states, flag) = try_true s.file f id e in rw q (ground (arith, states k))
  Step-complete t k (pass w id f here e q) done = rw (q, try_false s.file f id e) done
  Step-complete t k (give_back w id f here e q) done =
      let (states, flag, settled) = set_returns s.file f id free e in
      rw q (ground (arith, states k, owner w id here))
  Step-complete t k (finish w id f here e q) done =
      let (states, flag, settled) = set_returns s.file f id complete e in
      rw q (ground (arith, states k))
  Step-complete t k (look answer f e q) done = rw q (ground arith)
