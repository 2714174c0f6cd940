-- ===== src/Tracker/Threads.antt =====
-- server/main.cpp and server/TrackerThread.cpp: the whole tracker, the loop of `main` and a thread for
-- each connection. `args` of the loop is one variable: a thread gets its address, and reads the connection
-- from it when it comes to run. A pass through the loop over `recv` is one step of a thread; the missing
-- return of `runTrackerThread` is taken for an ordinary end.
pub mod Order
pub mod Race
pub mod Answers
use p2p_network.Base.{
  ℕ, suc, ◌≡◌, Bool, true, false, Option, none, some, List, [], ◌∷◌, ◌++◌, Text, returns, undefined,
  ◌==◌, if◌then◌else◌,
}
use p2p_network.Shared.Message.{TcpMessage}
use p2p_network.Shared.Connection.{Connection, overwrite}
use p2p_network.Tracker.Database.{Database, empty_database}
use p2p_network.Tracker.Responder.{respond}

-- Where the loop of `main` stands: in `accept`, with `args` filled before `pthread_create`, after it up to
-- the end of the round; or the process has ended with 1, or its behaviour has become undefined.
pub data Loop : Type 0 where
  accepting : Loop
  filled made : ℕ → Loop
  exited broken : Loop

-- `args.connFd`, while `args` is there: it is declared after `accept` and ends with the round.
abbrev pub args_of : Loop → Option ℕ
args_of (filled fd) = some fd
args_of (made fd) = some fd
args_of _ = none

abbrev pub is_running : Loop → Bool
is_running exited = false
is_running broken = false
is_running _ = true

-- A thread before it is made, before it has read `args`, in the loop of `run` with its connection and
-- buffer, and at its end.
pub data Thread : Type 0 where
  unborn born gone : Thread
  serving : ℕ → List ℕ → Thread

-- `accepted` lists the connections in the order of `accept`, `sent` the messages that all threads sent.
pub record Process : Type 0 where
  pub loop : Loop
  pub accepted : List ℕ
  pub threads : ℕ
  pub thread : ℕ → Thread
  pub database : Database
  pub sent : List TcpMessage

abbrev pub become : (ℕ → Thread) → ℕ → Thread → ℕ → Thread
become thread w p v = if w == v then p else thread v

module _ (hash : Text → ℕ) (fuel : ℕ) (parse : List ℕ → TcpMessage) (peer : ℕ → Connection) where
  -- One step of the loop or of the thread `w`.
  pub data Act (s u : Process) : Type 0 where
    accept :
        (fd : ℕ)
        → s.loop ≡ accepting
        → u ≡ record s { loop = filled fd; accepted = s.accepted ++ fd ∷ [] }
        → Act s u
    accept_failed : s.loop ≡ accepting → u ≡ record s { loop = exited } → Act s u
    make_thread :
        (fd : ℕ)
        → s.loop ≡ filled fd
        → u ≡ record s {
          loop = made fd;
          threads = suc s.threads;
          thread = become s.thread s.threads born;
        }
        → Act s u
    make_failed : (fd : ℕ) → s.loop ≡ filled fd → u ≡ record s { loop = exited } → Act s u
    end_round : (fd : ℕ) → s.loop ≡ made fd → u ≡ record s { loop = accepting } → Act s u
    read_args :
        (w fd : ℕ) (buf : List ℕ)
        → s.thread w ≡ born
        → args_of s.loop ≡ some fd
        → u ≡ record s { thread = become s.thread w (serving fd buf) }
        → Act s u
    read_ended_args :
        (w : ℕ) → s.thread w ≡ born → s.loop ≡ accepting → u ≡ record s { loop = broken } → Act s u
    receive :
        (w fd : ℕ) (buf bytes : List ℕ) (messages : List TcpMessage) (db : Database)
        → is_running s.loop ≡ true
        → s.thread w ≡ serving fd buf
        → respond hash fuel (peer fd) (parse (overwrite buf bytes)) s.database ≡ returns messages db
        → u ≡ record s {
          thread = become s.thread w (serving fd (overwrite buf bytes));
          database = db;
          sent = s.sent ++ messages;
        }
        → Act s u
    receive_undefined :
        (w fd : ℕ) (buf bytes : List ℕ)
        → is_running s.loop ≡ true
        → s.thread w ≡ serving fd buf
        → respond hash fuel (peer fd) (parse (overwrite buf bytes)) s.database ≡ undefined
        → u ≡ record s { loop = broken }
        → Act s u
    leave :
        (w fd : ℕ) (buf : List ℕ)
        → is_running s.loop ≡ true
        → s.thread w ≡ serving fd buf
        → u ≡ record s { thread = become s.thread w gone }
        → Act s u
    close_failed :
        (w fd : ℕ) (buf : List ℕ)
        → is_running s.loop ≡ true
        → s.thread w ≡ serving fd buf
        → u ≡ record s { loop = exited }
        → Act s u

  -- From a tracker that has just come to its loop.
  pub data Runs : Process → Type 0 where
    begin :
        (s : Process)
        → s ≡ record {
          loop = accepting;
          accepted = [];
          threads = 0;
          thread = λ _. unborn;
          database = empty_database;
          sent = [];
        }
        → Runs s
    after : (r s : Process) → Runs r → Act r s → Runs s
