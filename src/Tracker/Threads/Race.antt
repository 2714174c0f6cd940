-- ===== src/Tracker/Threads/Race.antt =====
-- The whole tracker: two threads that come to serve one connection.
use p2p_network.Base.{ℕ, ◌≢◌, ◌==◌, Bool-cases, inl, inr, arith, refl, List, [], ◌∷◌, Text}
use p2p_network.Shared.Message.{TcpMessage}
use p2p_network.Shared.Connection.{Connection}
use p2p_network.Tracker.Database.{empty_database}
use p2p_network.Tracker.Threads.{
  made, unborn, born, serving, Process, become, Runs, begin, after, accept, make_thread, end_round,
  read_args,
}

-- Two connections, with the first thread slow to start: both have come to the second connection.
abbrev pub both_serve : ℕ → ℕ → List ℕ → List ℕ → Process
both_serve first second buf other = record {
  loop = made second;
  accepted = first ∷ second ∷ [];
  threads = 2;
  thread =
      become (become (become (become (λ _. unborn) 0 born) 1 born) 0 (serving second buf)) 1
        (serving second other);
  database = empty_database;
  sent = [];
}

module _ (hash : Text → ℕ) (fuel : ℕ) (parse : List ℕ → TcpMessage) (peer : ℕ → Connection) where
  -- For any two different connections that a tracker accepts one after the other, it can come to a state
  -- in which the threads of both serve the second of them, and no thread serves the first.
  pub both_serve-Runs :
      (first second : ℕ) (buf other : List ℕ)
      → first ≢ second
      → Runs hash fuel parse peer (both_serve first second buf other)
        × ((w : ℕ) (held : List ℕ)
            → (both_serve first second buf other).thread w ≢ serving first held)
  both_serve-Runs first second buf other differ = (
    after _ _
        (after _ _
          (after _ _
            (after _ _
              (after _ _
                (after _ _ (after _ _ (begin _ refl) (accept first refl refl))
                  (make_thread first refl refl))
                (end_round first refl refl))
              (accept second refl refl))
            (make_thread second refl refl))
          (read_args 0 second buf refl refl refl))
        (read_args 1 second other refl refl refl),
    λ w held e. elim (Bool-cases (1 == w)) [
      | inl last ↦ absurd (ground (arith, last, e, differ))
      | inr not_last ↦ elim (Bool-cases (0 == w)) [
        | inl here ↦ absurd (ground (arith, not_last, here, e, differ))
        | inr not_here ↦ absurd (ground (arith, not_last, not_here, e))
      ]
    ],
  )
