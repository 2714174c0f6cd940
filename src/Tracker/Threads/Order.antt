-- ===== src/Tracker/Threads/Order.antt =====
-- The whole tracker: which connection a thread comes to serve.
use p2p_network.Base.{
  ℕ, suc, ◌<◌, ◌≤◌, ◌≡◌, refl, subst, some, List, [], ◌∷◌, ◌++◌, arith, Text, length, get_elem?,
  get_elem?-append_left, get_elem?-append_last, length-append, Bool-cases, inl, inr, ◌==◌,
}
use p2p_network.Shared.Message.{TcpMessage}
use p2p_network.Shared.Connection.{Connection, overwrite}
use p2p_network.Tracker.Database.{Database}
use p2p_network.Tracker.Threads.{
  Loop, accepting, filled, made, exited, broken, Thread, born, serving, gone, Process, become,
  args_of, Act, Runs, begin, after, accept, accept_failed, make_thread, make_failed, end_round,
  read_args, read_ended_args, receive, receive_undefined, leave, close_failed,
}

-- The connection `fd` is the one of the thread `w` in the order of `accept`, or a later one.
abbrev pub OwnOrLater : List ℕ → ℕ → ℕ → Type 0
OwnOrLater accepted w fd = (j : ℕ) × (w ≤ j) × (get_elem? accepted j ≡ some fd)

-- The number of threads against that of the connections, by the place of the loop.
abbrev Counted : Loop → List ℕ → ℕ → Type 0
Counted accepting accepted n = n ≡ length accepted
Counted (filled fd) accepted n = (suc n ≡ length accepted) × (get_elem? accepted n ≡ some fd)
Counted (made fd) accepted n =
    (n ≡ length accepted) × (k : ℕ) × (suc k ≡ n) × (get_elem? accepted k ≡ some fd)
Counted exited accepted n = Unit
Counted broken accepted n = Unit

record Ordered (s : Process) : Type 0 where
  counted : Counted s.loop s.accepted s.threads
  born_below : (w : ℕ) → s.thread w ≡ born → w < s.threads
  own : (w fd : ℕ) (buf : List ℕ) → s.thread w ≡ serving fd buf → OwnOrLater s.accepted w fd

args_of-OwnOrLater :
    (loop : Loop) (accepted : List ℕ) (n w fd : ℕ)
    → Counted loop accepted n
    → args_of loop ≡ some fd
    → w < n
    → OwnOrLater accepted w fd
args_of-OwnOrLater (filled here) accepted n w fd c e below =
    (n, omega (arith, below), ground (arith, c, e))
args_of-OwnOrLater (made here) accepted n w fd (c, k, last, at) e below =
    (k, omega (arith, below, last), ground (arith, at, e))
args_of-OwnOrLater accepting accepted n w fd c e below = absurd (ground (arith, e))
args_of-OwnOrLater exited accepted n w fd c e below = absurd (ground (arith, e))
args_of-OwnOrLater broken accepted n w fd c e below = absurd (ground (arith, e))

-- A thread that takes the place of another without a new connection.
become-Ordered :
    (s : Process) (w : ℕ) (p : Thread) (db : Database) (sent : List TcpMessage)
    → Ordered s
    → (born ≡ p → w < s.threads)
    → ((fd : ℕ) (buf : List ℕ) → p ≡ serving fd buf → OwnOrLater s.accepted w fd)
    → Ordered (record s { thread = become s.thread w p; database = db; sent = sent })
become-Ordered s w p db sent inv below here = record {
  counted = inv.counted;
  born_below = λ v h. elim (Bool-cases (w == v)) [
    | inl same ↦ ground (arith, same, h, below)
    | inr other ↦ inv.born_below v (ground (arith, other, h))
  ];
  own = λ v fd buf h. elim (Bool-cases (w == v)) [
    | inl same ↦
        let eq : w ≡ v = ground (arith, same) in
        subst (λ x. OwnOrLater s.accepted x fd) eq (here fd buf (ground (arith, same, h)))
    | inr other ↦ inv.own v fd buf (ground (arith, other, h))
  ];
}

-- The loop goes on and the threads stay.
loop-Ordered :
    (s : Process) (loop : Loop)
    → Ordered s
    → Counted loop s.accepted s.threads
    → Ordered (record s { loop = loop })
loop-Ordered s loop inv c = record { counted = c; born_below = inv.born_below; own = inv.own }

accept-Ordered :
    (s : Process) (fd : ℕ)
    → Ordered s
    → s.loop ≡ accepting
    → Ordered (record s { loop = filled fd; accepted = s.accepted ++ fd ∷ [] })
accept-Ordered s fd inv here =
    let count : s.threads ≡ length s.accepted =
      subst (λ l. Counted l s.accepted s.threads) here inv.counted in
    record {
      counted = (
        omega (arith, count, length-append s.accepted (fd ∷ [])),
        rw count (get_elem?-append_last s.accepted fd),
      );
      born_below = inv.born_below;
      own = λ w fd' buf h.
          let (j, above, at) = inv.own w fd' buf h in
          (j, above, get_elem?-append_left s.accepted (fd ∷ []) j fd' at);
    }

make-Ordered :
    (s : Process) (fd : ℕ)
    → Ordered s
    → s.loop ≡ filled fd
    → Ordered (record s {
      loop = made fd;
      threads = suc s.threads;
      thread = become s.thread s.threads born;
    })
make-Ordered s fd inv here =
    let (count, at) = subst (λ l. Counted l s.accepted s.threads) here inv.counted in
    record {
      counted = (count, s.threads, refl, at);
      born_below = λ v h. elim (Bool-cases (s.threads == v)) [
        | inl same ↦ ground (arith, same)
        | inr other ↦ omega (arith, inv.born_below v (ground (arith, other, h)))
      ];
      own = λ v fd' buf h. elim (Bool-cases (s.threads == v)) [
        | inl same ↦ absurd (ground (arith, same, h))
        | inr other ↦ inv.own v fd' buf (ground (arith, other, h))
      ];
    }

module _ (hash : Text → ℕ) (fuel : ℕ) (parse : List ℕ → TcpMessage) (peer : ℕ → Connection) where
  Act-Ordered : (s u : Process) → Ordered s → Act hash fuel parse peer s u → Ordered u
  Act-Ordered s u inv (accept fd here q) = rw q (accept-Ordered s fd inv here)
  Act-Ordered s u inv (accept_failed here q) = rw q (loop-Ordered s exited inv tt)
  Act-Ordered s u inv (make_thread fd here q) = rw q (make-Ordered s fd inv here)
  Act-Ordered s u inv (make_failed fd here q) = rw q (loop-Ordered s exited inv tt)
  Act-Ordered s u inv (end_round fd here q) =
      let c = subst (λ l. Counted l s.accepted s.threads) here inv.counted in
      rw q (loop-Ordered s accepting inv c.0)
  Act-Ordered s u inv (read_args w fd buf here e q) =
      let reached : OwnOrLater s.accepted w fd =
        args_of-OwnOrLater s.loop s.accepted s.threads w fd inv.counted e (inv.born_below w here) in
      rw q (
        become-Ordered s w (serving fd buf) s.database s.sent inv (λ h. absurd (ground (arith, h)))
          (λ fd' buf' h. subst (OwnOrLater s.accepted w) (ground (arith, h)) reached))
  Act-Ordered s u inv (read_ended_args w here e q) = rw q (loop-Ordered s broken inv tt)
  Act-Ordered s u inv (receive w fd buf bytes messages db on here e q) = rw q (
      become-Ordered s w (serving fd (overwrite buf bytes)) db (s.sent ++ messages) inv
        (λ h. absurd (ground (arith, h)))
        (λ fd' buf' h. subst (OwnOrLater s.accepted w) (ground (arith, h)) (inv.own w fd buf here)))
  Act-Ordered s u inv (receive_undefined w fd buf bytes on here e q) =
      rw q (loop-Ordered s broken inv tt)
  Act-Ordered s u inv (leave w fd buf on here q) = rw q (
      become-Ordered s w gone s.database s.sent inv (λ h. absurd (ground (arith, h)))
        (λ fd' buf' h. absurd (ground (arith, h))))
  Act-Ordered s u inv (close_failed w fd buf on here q) = rw q (loop-Ordered s exited inv tt)

  Runs-Ordered : {s : Process} → Runs hash fuel parse peer s → Ordered s
  Runs-Ordered (begin s q) = rw q record {
    counted = refl;
    born_below = λ w h. absurd (ground (arith, h));
    own = λ w fd buf h. absurd (ground (arith, h));
  }
  Runs-Ordered (after r s before act) = Act-Ordered r s (Runs-Ordered before) act

  -- Whenever a thread serves a connection, it is the one that the thread was made for (the connections
  -- counted in the order of `accept`), or a later one: never one of an earlier thread.
  pub Runs-OwnOrLater :
      {s : Process} (w fd : ℕ) (buf : List ℕ)
      → Runs hash fuel parse peer s
      → s.thread w ≡ serving fd buf
      → OwnOrLater s.accepted w fd
  Runs-OwnOrLater w fd buf runs here = (Runs-Ordered runs).own w fd buf here
