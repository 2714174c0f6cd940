-- ===== src/Tracker/Responder/Replies.antt =====
-- server/TrackerThread.cpp: what a tracker that starts with the empty database answers.
use p2p_network.Base.{
  ℕ, suc, ◌≡◌, refl, Option, none, some, List, [], ◌∷◌, ◌++◌, arith, Text, Outcome, returns,
  undefined,
}
use p2p_network.Shared.Message.{
  TcpCode, ok, cs_seedlist_request, cs_seedlist_response, cs_new_request, cs_im_a_seed, TcpMessage,
  Contents, no_seeds, unset, seedlist_response,
}
use p2p_network.Shared.Connection.{Connection, Recv, received, ended, overwrite}
use p2p_network.Tracker.Database.{Database, empty_database, get_clients_with, torrent_vector}
use p2p_network.Tracker.Database.Locks.{add_torrent_to_database-undefined}
use p2p_network.Tracker.Responder.{message, dispatch, serve, handle_new_request}

-- The answer to a message, with no database at all: nothing is known, and a request for a new
-- torrent has no defined answer.
abbrev pub reply : TcpCode → Option (List TcpMessage)
reply ok = some (message ok unset ∷ [])
reply cs_seedlist_request = some (message cs_seedlist_response (seedlist_response no_seeds) ∷ [])
reply cs_new_request = none
reply _ = some []

abbrev pub both : Option (List TcpMessage) → Option (List TcpMessage) → Option (List TcpMessage)
both none later = none
both (some sent) none = none
both (some sent) (some later) = some (sent ++ later)

abbrev pub replies : (List ℕ → TcpMessage) → List ℕ → List Recv → Option (List TcpMessage)
replies parse buf [] = some []
replies parse buf (ended ∷ rest) = some []
replies parse buf (received bytes ∷ rest) =
    both (reply (parse (overwrite buf bytes)).code) (replies parse (overwrite buf bytes) rest)

abbrev pub outcome : Option (List TcpMessage) → Outcome Database (List TcpMessage)
outcome none = undefined
outcome (some sent) = returns sent empty_database

module _ (hash : Text → ℕ) (fuel : ℕ) where
  -- A request for a new torrent is undefined behaviour on every database.
  pub handle_new_request-undefined :
      (conn : Connection) (contents : Contents) (db : Database)
      → handle_new_request hash (suc fuel) conn contents db ≡ undefined
  unfolding handle_new_request
  handle_new_request-undefined conn contents db = rw (add_torrent_to_database-undefined hash fuel)

  pub dispatch-empty :
      (code : TcpCode) (conn : Connection) (contents : Contents)
      → dispatch hash (suc fuel) code conn contents empty_database ≡ outcome (reply code)
  unfolding dispatch get_clients_with torrent_vector
  dispatch-empty ok conn contents = refl
  dispatch-empty cs_seedlist_request conn contents = refl
  dispatch-empty cs_new_request conn contents =
      handle_new_request-undefined conn contents empty_database
  dispatch-empty cs_im_a_seed conn contents = refl
  dispatch-empty _ conn contents = refl

  -- Whatever messages a connection brings, the tracker that starts empty gives the replies that
  -- need no database and stays empty: every list of seeds that it sends is empty. From the first
  -- request for a new torrent on its behaviour is undefined.
  pub serve-empty :
      (parse : List ℕ → TcpMessage) (conn : Connection) (buf : List ℕ) (events : List Recv)
      → serve hash (suc fuel) parse conn buf events empty_database
        ≡ outcome (replies parse buf events)
  unfolding serve
  serve-empty parse conn buf [] = refl
  serve-empty parse conn buf (ended ∷ rest) = refl
  serve-empty parse conn buf (received bytes ∷ rest) =
      let msg = parse (overwrite buf bytes) in
      ground (
        arith,
        dispatch-empty msg.code conn msg.contents,
        serve-empty parse conn (overwrite buf bytes) rest,
      )
