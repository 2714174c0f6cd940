-- ===== src/Client/Swarm/Simulation.antt =====
-- The workers down to the disk do, as far as the file's segments go, what the workers of
-- Client/Workers.antt do.
use mathlib.Core.Path.{fun_ext}
use p2p_network.Base.{ℕ, ◌≡◌, refl, sym, subst, ◌∙◌, ap, Text, arith, ◌==◌, Bool-cases, inl, inr}
use p2p_network.Client.File.{File, new_file}
use p2p_network.Client.Workers.{Pc, idle, fetching, System, at, Step, Reach}
use p2p_network.Client.Workers
use p2p_network.Client.Swarm.{
  Task, resting, asking, received, locked, written, Swarm, assign, Move, claim, pass, give_back,
  receive, lock, write, finish, look, Reachable, start, later,
}
use p2p_network.Shared.Torrent.{Torrent}

-- A worker fetches a segment from the claim to the call that settles it.
abbrev pub pc_of : Task → Pc
pc_of resting = idle
pc_of (asking id) = fetching id
pc_of (received id bytes) = fetching id
pc_of (locked id bytes) = fetching id
pc_of (written id) = fetching id

abbrev pub system_of : Swarm → System
system_of s = record { file = s.file; pc = λ w. pc_of (s.task w) }

pc_of-assign :
    (task : ℕ → Task) (w : ℕ) (p : Task)
    → ◌≡◌ {A = ℕ → Pc} (λ v. pc_of (assign task w p v)) (at (λ v. pc_of (task v)) w (pc_of p))
pc_of-assign task w p = fun_ext λ v. ground arith

at-same : (pc : ℕ → Pc) (w : ℕ) (p : Pc) → pc w ≡ p → at pc w p ≡ pc
at-same pc w p h = fun_ext λ v. elim (Bool-cases (w == v)) [
  | inl same ↦ let eq : w ≡ v = ground (arith, same) in ground (arith, h, ap pc eq)
  | inr other ↦ ground (arith, other)
]

module _ (answers : ℕ → Text → Type 0) (t : Torrent) (path : Text) where
  -- A move that only the disk sees.
  stays :
      (s : Swarm) (w id : ℕ) (p : Task)
      → pc_of (s.task w) ≡ fetching id
      → pc_of p ≡ fetching id
      → ◌≡◌ {A = ℕ → Pc} (λ v. pc_of (assign s.task w p v)) (λ v. pc_of (s.task v))
  stays s w id p here there =
      pc_of-assign s.task w p ∙ rw there (at-same (λ v. pc_of (s.task v)) w (fetching id) here)

  -- Whatever state the workers reach down to the disk, the states of the segments and the segments that
  -- the workers hold are reached by the workers of Client/Workers.antt.
  pub Reachable-Reach :
      {s : Swarm} → Reachable answers t path s → Reach (new_file t path) (system_of s)
  Reachable-Reach (start fm made s e q) = Workers.start (system_of s) (rw q refl)
  Reachable-Reach (later r s before m) = follow (Reachable-Reach before) m
    where
      step :
          (u : System)
          → Reach (new_file t path) (system_of r)
          → Step (system_of r) u
          → Reach (new_file t path) u
      step u reach m = Workers.later (system_of r) u reach m

      settled :
          (w : ℕ) (p : Task) (f : File)
          → ◌≡◌ {A = System}
              (system_of (record r { file = f; task = assign r.task w p }))
              (record { file = f; pc = at (λ v. pc_of (r.task v)) w (pc_of p) })
      settled w p f = ap (λ (pc : ℕ → Pc). record { file = f; pc = pc }) (pc_of-assign r.task w p)

      unseen :
          (w id : ℕ) (p : Task)
          → pc_of (r.task w) ≡ fetching id
          → pc_of p ≡ fetching id
          → Reach (new_file t path) (system_of r)
          → Reach
              (new_file t path)
              (record { file = r.file; pc = λ v. pc_of (assign r.task w p v) })
      unseen w id p here there reach =
          subst (λ (pc : ℕ → Pc). Reach (new_file t path) (record { file = r.file; pc = pc }))
            (sym (stays r w id p here there)) reach

      follow :
          Reach (new_file t path) (system_of r)
          → Move answers r s
          → Reach (new_file t path) (system_of s)
      follow reach (claim w id f here e q) =
          rw q (step _ reach (Workers.claim w id f (ap pc_of here) e (settled w (asking id) f)))
      follow reach (pass w id f here e q) =
          rw q (step _ reach (Workers.pass w id f (ap pc_of here) e refl))
      follow reach (give_back w id f here e q) =
          rw q (step _ reach (Workers.give_back w id f (ap pc_of here) e (settled w resting f)))
      follow reach (receive w id bytes here a q) =
          rw q (unseen w id (received id bytes) (ap pc_of here) refl reach)
      follow reach (lock w id bytes m here e q) =
          rw q (unseen w id (locked id bytes) (ap pc_of here) refl reach)
      follow reach (write w id bytes m here e q) =
          rw q (unseen w id (written id) (ap pc_of here) refl reach)
      follow reach (finish w id f here e q) =
          rw q (step _ reach (Workers.finish w id f (ap pc_of here) e (settled w resting f)))
      follow reach (look answer f e q) = rw q (step _ reach (Workers.look answer f e refl))
