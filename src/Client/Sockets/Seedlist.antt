-- ===== src/Client/Sockets/Seedlist.antt =====
-- client/networking/SSocket.cpp and CSocket.cpp: what the requests make of the answers.
use p2p_network.Base.{
  ℕ, suc, ◌≡◌, ◌∙◌, ◌↔◌, refl, Bool, List, [], ◌∷◌, arith, Text, returns, undefined, true, false,
  if◌then◌else◌,
}
use p2p_network.Shared.{recvd, error, timed_out}
use p2p_network.Shared.Message.{
  TcpCode, seedlist_request, cs_seedlist_request, cs_seedlist_response, TcpMessage, Contents,
  IpPort, SeedlistResponse, no_seeds, seedlist_response, seedlist_response_of,
}
use p2p_network.Shared.Connection.{Connection, received, overwrite}
use p2p_network.Tracker.Database.{empty_database}
use p2p_network.Tracker.Responder.{message, serve}
use p2p_network.Tracker.Responder.Replies.{serve-empty}
use p2p_network.Client.Sockets.{
  Socket, Incoming, select_error, select_timeout, was_read, seeds_answered, first_logged,
  send_seedlist_request,
}

seeds_answered-undefined :
    (code : TcpCode) (contents : Contents) (s : Socket)
    → (seeds_answered code contents s ≡ undefined)
      ↔ ((code ≡ cs_seedlist_response) × ((seedlist_response_of contents).ipv4_peers ≡ []))
unfolding seeds_answered
seeds_answered-undefined cs_seedlist_response contents s = ground arith
seeds_answered-undefined _ contents s = ground arith

-- Asking the tracker for the seeds of a torrent is undefined behaviour exactly if a list of seeds
-- comes back whose IPv4 peers are empty; an error, a time-out and any other message are not.
pub send_seedlist_request-undefined :
    (hash : ℕ) (s : Socket)
    → (send_seedlist_request hash s ≡ undefined) ↔ (
        (failed : Bool) × (msg : TcpMessage) × (rest : List Incoming) × (s.incoming
          ≡ was_read failed msg ∷ rest)
        × (msg.code ≡ cs_seedlist_response)
        × ((seedlist_response_of msg.contents).ipv4_peers ≡ []))
unfolding send_seedlist_request
send_seedlist_request-undefined hash s = (
  λ h. found s.incoming refl h,
  λ (failed, msg, rest, e, code, none_there). ground (
    arith,
    e,
    (seeds_answered-undefined msg.code msg.contents (heard msg rest)).1 (code, none_there),
  ),
)
  where
    heard : TcpMessage → List Incoming → Socket
    heard msg rest = record s {
      state = recvd;
      last_msg = msg;
      outbox = record { code = cs_seedlist_request; contents = seedlist_request hash } ∷ s.outbox;
      incoming = rest;
    }

    found :
        (is : List Incoming)
        → s.incoming ≡ is
        → send_seedlist_request hash s ≡ undefined
        → (failed : Bool) × (msg : TcpMessage) × (rest : List Incoming) × (s.incoming
            ≡ was_read failed msg ∷ rest)
          × (msg.code ≡ cs_seedlist_response)
          × ((seedlist_response_of msg.contents).ipv4_peers ≡ [])
    found [] e h = absurd (ground arith)
    found (select_error ∷ rest) e h = absurd (ground arith)
    found (select_timeout ∷ rest) e h = absurd (ground arith)
    found (was_read failed msg ∷ rest) e h =
        let (code, none_there) =
          (seeds_answered-undefined msg.code msg.contents (heard msg rest)).0 (ground (arith, e)) in
        (failed, msg, rest, e, code, none_there)

-- The answer is a list of seeds without an IPv4 peer.
abbrev pub lists_nobody : TcpCode → List IpPort → Bool
lists_nobody cs_seedlist_response [] = true
lists_nobody _ _ = false

-- What comes first over the socket is such an answer.
abbrev pub names_nobody : List Incoming → Bool
names_nobody (was_read failed msg ∷ rest) =
    lists_nobody msg.code (seedlist_response_of msg.contents).ipv4_peers
names_nobody _ = false

seeds_answered-cases :
    (code : TcpCode) (contents : Contents) (s : Socket)
    → (r : SeedlistResponse) × (seeds_answered code contents s ≡ (
        if lists_nobody code (seedlist_response_of contents).ipv4_peers
        then undefined
        else returns r s))
unfolding seeds_answered
seeds_answered-cases cs_seedlist_response contents s =
    (seedlist_response_of contents, logged (seedlist_response_of contents).ipv4_peers)
  where
    logged :
        (ps : List IpPort)
        → first_logged (seedlist_response_of contents) ps s ≡ (
            if lists_nobody cs_seedlist_response ps
            then undefined
            else returns (seedlist_response_of contents) s)
    logged [] = refl
    logged (p ∷ ps) = refl
seeds_answered-cases _ contents s = (no_seeds, refl)

-- A request for seeds comes to an end: to undefined behaviour or with a list.
pub send_seedlist_request-cases :
    (hash : ℕ) (s : Socket)
    → (r : SeedlistResponse) × (s' : Socket) × (send_seedlist_request hash s
        ≡ (if names_nobody s.incoming then undefined else returns r s'))
unfolding send_seedlist_request
send_seedlist_request-cases hash s = answered s.incoming refl
  where
    asked : Socket
    asked = record s {
      outbox = record { code = cs_seedlist_request; contents = seedlist_request hash } ∷ s.outbox;
    }

    answered :
        (is : List Incoming)
        → s.incoming ≡ is
        → (r : SeedlistResponse) × (s' : Socket) × (send_seedlist_request hash s
            ≡ (if names_nobody is then undefined else returns r s'))
    answered [] e = (no_seeds, record asked { state = timed_out }, ground (arith, e))
    answered (select_error ∷ rest) e =
        (no_seeds, record asked { state = error; incoming = rest }, ground (arith, e))
    answered (select_timeout ∷ rest) e =
        (no_seeds, record asked { state = timed_out; incoming = rest }, ground (arith, e))
    answered (was_read failed msg ∷ rest) e =
        let heard : Socket = record asked { state = recvd; last_msg = msg; incoming = rest } in
        let (r, run) = seeds_answered-cases msg.code msg.contents heard in
        (r, heard, ground (arith, e, run))

-- The tracker that starts empty answers a request for the seeds of a torrent; the client that reads
-- the answer meets undefined behaviour, whatever the torrent.
pub tracker_answer-undefined :
    (hash_function : Text → ℕ) (fuel : ℕ) (parse : List ℕ → TcpMessage) (conn : Connection)
    (buf bytes : List ℕ) (hash : ℕ) (s : Socket) (failed : Bool) (rest : List Incoming)
    → (parse (overwrite buf bytes)).code ≡ cs_seedlist_request
    → (msg : TcpMessage) × (serve hash_function
          (suc fuel)
          parse
          conn
          buf
          (received bytes ∷ [])
          empty_database
        ≡ returns (msg ∷ []) empty_database)
      × (send_seedlist_request hash (record s { incoming = was_read failed msg ∷ rest })
          ≡ undefined)
unfolding message
tracker_answer-undefined hash_function fuel parse conn buf bytes hash s failed rest e =
    let msg : TcpMessage = message cs_seedlist_response (seedlist_response no_seeds) in
    let read : Socket = record s { incoming = was_read failed msg ∷ rest } in
    (
      msg,
      serve-empty hash_function fuel parse conn buf (received bytes ∷ []) ∙ rw e,
      (send_seedlist_request-undefined hash read).1 (failed, msg, rest, refl, refl, refl),
    )
