-- ===== src/Tracker/Threads/Answers.antt =====
-- The whole tracker: what its threads send.
use p2p_network.Base.{
  some, ℕ, suc, ◌≡◌, ◌⊎◌, inl, inr, refl, sym, subst, ◌∙◌, List, [], arith, Text, All, All-append,
  returns,
}
use p2p_network.Shared.Message.{
  TcpCode, ok, cs_seedlist_request, cs_seedlist_response, cs_new_request, TcpMessage, no_seeds,
  unset, seedlist_response,
}
use p2p_network.Shared.Connection.{Connection}
use p2p_network.Tracker.Database.{Database, empty_database}
use p2p_network.Tracker.Responder.{message, respond}
use p2p_network.Tracker.Responder.Replies.{reply, outcome, dispatch-empty}
use p2p_network.Tracker.Threads.{
  Process, Act, Runs, begin, after, accept, accept_failed, make_thread, make_failed, end_round,
  read_args, read_ended_args, receive, receive_undefined, leave, close_failed,
}

-- The two messages that need no database.
abbrev pub IsPlain : TcpMessage → Type 0
IsPlain m = (m ≡ message ok unset) ⊎ (m ≡ message cs_seedlist_response (seedlist_response no_seeds))

outcome-IsPlain :
    (answer messages : List TcpMessage) (db : Database)
    → outcome (some answer) ≡ returns messages db
    → All IsPlain answer
    → (db ≡ empty_database) × All IsPlain messages
outcome-IsPlain answer messages db e plain =
    let same : answer ≡ messages = ground (arith, e) in
    (ground (arith, e), subst (All IsPlain) same plain)

outcome-reply :
    (code : TcpCode) (messages : List TcpMessage) (db : Database)
    → outcome (reply code) ≡ returns messages db
    → (db ≡ empty_database) × All IsPlain messages
outcome-reply ok messages db e = outcome-IsPlain _ messages db e (inl refl, tt)
outcome-reply cs_seedlist_request messages db e = outcome-IsPlain _ messages db e (inr refl, tt)
outcome-reply cs_new_request messages db e = absurd (ground (arith, e))
outcome-reply _ messages db e = outcome-IsPlain [] messages db e tt

module _ (hash : Text → ℕ) (fuel : ℕ) (parse : List ℕ → TcpMessage) (peer : ℕ → Connection) where
  respond-IsPlain :
      (conn : Connection) (msg : TcpMessage) (messages : List TcpMessage) (before db : Database)
      → before ≡ empty_database
      → respond hash (suc fuel) conn msg before ≡ returns messages db
      → (db ≡ empty_database) × All IsPlain messages
  unfolding respond
  respond-IsPlain conn msg messages before db empty e =
      let known : respond hash (suc fuel) conn msg empty_database ≡ returns messages db =
        subst (λ b. respond hash (suc fuel) conn msg b ≡ returns messages db) empty e in
      outcome-reply msg.code messages db
        (sym (dispatch-empty hash fuel msg.code conn msg.contents) ∙ known)

  -- However the threads of a tracker and its loop interleave, and whatever messages come over its
  -- connections, its database stays empty, and every message that any thread sends is an empty answer to
  -- `OK` or a list of seeds without seeds.
  pub Runs-empty :
      {s : Process}
      → Runs hash (suc fuel) parse peer s
      → (s.database ≡ empty_database) × All IsPlain s.sent
  Runs-empty (begin s q) = rw q (refl, tt)
  Runs-empty (after r s before act) = follow (Runs-empty before) act
    where
      follow :
          (r.database ≡ empty_database) × All IsPlain r.sent
          → Act hash (suc fuel) parse peer r s
          → (s.database ≡ empty_database) × All IsPlain s.sent
      follow inv (receive w fd buf bytes messages db on here e q) =
          let (stays, plain) = respond-IsPlain (peer fd) _ messages r.database db inv.0 e in
          rw q (stays, All-append IsPlain r.sent messages inv.1 plain)
      follow inv (accept fd here q) = rw q inv
      follow inv (accept_failed here q) = rw q inv
      follow inv (make_thread fd here q) = rw q inv
      follow inv (make_failed fd here q) = rw q inv
      follow inv (end_round fd here q) = rw q inv
      follow inv (read_args w fd buf here e q) = rw q inv
      follow inv (read_ended_args w here e q) = rw q inv
      follow inv (receive_undefined w fd buf bytes on here e q) = rw q inv
      follow inv (leave w fd buf on here q) = rw q inv
      follow inv (close_failed w fd buf on here q) = rw q inv
