-- ===== src/Shared/Listener.antt =====
-- The listening loops of server/main.cpp, client/main.cpp and client/networking/RequestHandler.cpp, and
-- `guard` of shared/sharedUtils.cpp, over the results of the system calls: `none` stands for -1.
use p2p_network.Base.{ℕ, Bool, Option, none, some, List, [], ◌∷◌, ◌++◌, if◌then◌else◌}
use p2p_network.Shared.Options.{GetoptResult, tracker_port}

-- What `accept` and then `pthread_create` come to.
pub record Accepted : Type 0 where
  pub connection : Option ℕ
  pub thread_made : Bool

-- The results of `socket`, `bind`, `listen`, and of the calls of `accept`, one after another.
pub record ListenCalls : Type 0 where
  pub made : Option ℕ
  pub bound : Option ℕ
  pub listening : Option ℕ
  pub accepts : List Accepted

-- The connections that got a thread, when the process exits with 1, or while it waits in `accept`.
pub data Listened : Type 0 where
  exits waits : List ℕ → Listened

-- `guard` exits if a call has failed, and else hands its result on.
unfoldable pub guard : Option ℕ → List ℕ → (ℕ → Listened) → Listened
guard none served next = exits served
guard (some r) served next = next r

unfoldable pub accept_loop : List Accepted → List ℕ → Listened
unfolding guard
accept_loop [] served = waits served
accept_loop (a ∷ rest) served = guard a.connection served (λ fd.
    let after = accept_loop rest (served ++ fd ∷ []) in
    if a.thread_made then after else exits served)

listen_calls : ListenCalls → Listened
unfolding guard accept_loop
listen_calls c =
    guard c.made []
      (λ _. guard c.bound [] (λ _. guard c.listening [] (λ _. accept_loop c.accepts [])))

-- `connListen` of the client: it never returns.
unfoldable pub conn_listen : ListenCalls → Listened
unfolding listen_calls
conn_listen c = listen_calls c

listen_at : Option ℕ → ListenCalls → Listened
unfolding listen_calls
listen_at none c = exits []
listen_at (some port) c = listen_calls c

-- `main` of the tracker. A thread reads its connection from a variable of the loop, which may have a new
-- value by then (Tracker/Threads.antt); here each thread has its own.
unfoldable pub tracker_main : List GetoptResult → ListenCalls → Listened
unfolding listen_at
tracker_main os c = listen_at (tracker_port os) c

dropped_connections : List Accepted → Listened
unfolding guard
dropped_connections [] = waits []
dropped_connections (a ∷ rest) = guard a.connection [] (λ _. dropped_connections rest)

after_call : Option ℕ → Option Listened → Option Listened
after_call none next = none
after_call (some r) next = next

-- `openListener`: `none` stands for the result -1. A connection that is accepted is left at that.
unfoldable pub open_listener : ListenCalls → Option Listened
unfolding after_call dropped_connections
open_listener c =
    after_call c.made
      (after_call c.bound (after_call c.listening (some (dropped_connections c.accepts))))
