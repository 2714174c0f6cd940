-- ===== src/Tests/ThreadsTests.antt =====
-- The whole tracker at concrete runs.
use p2p_network.Base.{ℕ, ◌≡◌, ◌≢◌, refl, List, [], ◌∷◌, arith, length, returns, All}
use p2p_network.Shared.Message.{
  cs_seedlist_request, cs_seedlist_response, TcpMessage, seedlist_request, seedlist_response,
  no_seeds,
}
use p2p_network.Shared.Connection.{Connection, overwrite}
use p2p_network.Tracker.Database.{empty_database, get_clients_with}
use p2p_network.Tracker.Responder.{message, respond}
use p2p_network.Tracker.Threads.{Process, Runs, serving, become, after, receive}
use p2p_network.Tracker.Threads.Race.{both_serve, both_serve-Runs}
use p2p_network.Tracker.Threads.Order.{OwnOrLater, Runs-OwnOrLater}
use p2p_network.Tracker.Threads.Answers.{IsPlain, Runs-empty}

abbrev asks_seeds : List ℕ → TcpMessage
asks_seeds bytes = record { code = cs_seedlist_request; contents = seedlist_request 1 }

abbrev anybody : ℕ → Connection
anybody fd = record { peer_ip = 49 ∷ []; peer_port = fd }

four_differs : ◌≢◌ {A = ℕ} 4 5
four_differs e = absurd (omega arith)

abbrev two_at_once : Process
two_at_once = both_serve 4 5 [] []

two-Runs : Runs length 1 asks_seeds anybody two_at_once
two-Runs = (both_serve-Runs length 1 asks_seeds anybody 4 5 [] [] four_differs).0

both_serve-Runs_example : two_at_once.thread 0 ≢ serving 4 []
both_serve-Runs_example =
    (both_serve-Runs length 1 asks_seeds anybody 4 5 [] [] four_differs).1 0 []

Runs-OwnOrLater_example : OwnOrLater (4 ∷ 5 ∷ []) 0 5
Runs-OwnOrLater_example = Runs-OwnOrLater length 1 asks_seeds anybody 0 5 [] two-Runs refl

abbrev no_seeds_sent : TcpMessage
no_seeds_sent = message cs_seedlist_response (seedlist_response no_seeds)

abbrev answered : Process
answered = record two_at_once {
  thread = become two_at_once.thread 1 (serving 5 (7 ∷ []));
  sent = no_seeds_sent ∷ [];
}

one_respond :
    respond length 1 (anybody 5) (asks_seeds []) empty_database
    ≡ returns (no_seeds_sent ∷ []) empty_database
unfolding respond get_clients_with
one_respond = refl

answered-Runs : Runs length 1 asks_seeds anybody answered
unfolding overwrite
answered-Runs =
    after two_at_once answered two-Runs
      (receive 1 5 [] (7 ∷ []) (no_seeds_sent ∷ []) empty_database refl refl one_respond refl)

Runs-empty_example : All IsPlain (no_seeds_sent ∷ [])
Runs-empty_example = (Runs-empty length 0 asks_seeds anybody answered-Runs).1
