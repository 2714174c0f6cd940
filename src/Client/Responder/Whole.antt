-- ===== src/Client/Responder/Whole.antt =====
-- client/networking/ResponderThread.cpp: what a connection to a client comes to, from its first byte to
-- its end.
use p2p_network.Base.{
  ℕ, ◌≡◌, ◌∙◌, refl, Bool, false, List, [], ◌∷◌, ◌++◌, append-nil, append_assoc, any, map, arith,
  ◌==◌, if◌then◌else◌, Bool-cases, inl, inr, returns, undefined,
}
use p2p_network.Shared.Message.{
  TcpCode, ok, cc_list_request, cc_list_response, cc_fragment_request, cc_fragment_response,
  TcpMessage, Contents, f_no_file, f_frag_complete, unset, list_response, fragment_response,
  list_request_hash, fragment_request_hash, no_fragment,
}
use p2p_network.Shared.Connection.{Recv, received, ended, overwrite}
use p2p_network.Shared.Wire.{SeesNewest, laid, laid-SeesNewest}
use p2p_network.Client.FileManager.Storing.{any-append}
use p2p_network.Client.Responder.{run_responder}
use p2p_network.Client.Responder.Answers.{answer_without_files, respond_to_client_lem}
use p2p_network.Client.Responder.Silence.{carries_segment}

-- The chunks that come before the connection ends.
abbrev pub chunks_of : List Recv → List (List ℕ)
chunks_of [] = []
chunks_of (ended ∷ rest) = []
chunks_of (received bytes ∷ rest) = bytes ∷ chunks_of rest

-- A request for a fragment of the torrent with the hash 0.
abbrev pub asks_blank : TcpCode → Contents → Bool
asks_blank cc_fragment_request contents = 0 == fragment_request_hash contents
asks_blank _ contents = false

-- The messages that any client sends back for a message.
abbrev pub fixed_answers : TcpCode → Contents → List TcpMessage
fixed_answers ok contents = record { code = ok; contents = unset } ∷ []
fixed_answers cc_list_request contents =
    record {
      code = cc_list_response;
      contents = list_response (record {
        hashed_torrent = list_request_hash contents;
        file_code = f_frag_complete;
        fragments = [];
      });
    }
    ∷ []
fixed_answers cc_fragment_request contents =
    record {
      code = cc_fragment_response;
      contents = fragment_response (record no_fragment { file_code = f_no_file });
    }
    ∷ []
fixed_answers _ contents = []

abbrev pub all_answers : List TcpMessage → List TcpMessage
all_answers [] = []
all_answers (m ∷ ms) = fixed_answers m.code m.contents ++ all_answers ms

respond-fixed :
    (code : TcpCode) (contents : Contents)
    → answer_without_files code contents
      ≡ (if asks_blank code contents then undefined else returns tt (fixed_answers code contents))
respond-fixed ok contents = refl
respond-fixed cc_list_request contents = refl
respond-fixed cc_fragment_request contents = ground arith
respond-fixed _ contents = refl

fixed_answers-carries :
    (code : TcpCode) (contents : Contents)
    → any carries_segment (fixed_answers code contents) ≡ false
unfolding carries_segment
fixed_answers-carries ok contents = refl
fixed_answers-carries cc_list_request contents = refl
fixed_answers-carries cc_fragment_request contents = refl
fixed_answers-carries _ contents = refl

all_answers-carries : (ms : List TcpMessage) → any carries_segment (all_answers ms) ≡ false
all_answers-carries [] = refl
all_answers-carries (m ∷ ms) =
    any-append carries_segment (fixed_answers m.code m.contents) (all_answers ms)
    ∙ ground (arith, fixed_answers-carries m.code m.contents, all_answers-carries ms)

module _ (parse : List ℕ → TcpMessage) where
  run-fixed :
      (buf : List ℕ) (events : List Recv) (sent : List TcpMessage)
      → let asked = map parse (laid buf (chunks_of events)) in
        run_responder parse buf events sent ≡ (
          if any (λ m. asks_blank m.code m.contents) asked
          then undefined
          else returns tt (sent ++ all_answers asked))
  unfolding run_responder
  run-fixed buf [] sent = rw (append-nil sent) refl
  run-fixed buf (ended ∷ rest) sent = rw (append-nil sent) refl
  run-fixed buf (received bytes ∷ rest) sent =
      let msg : TcpMessage = parse (overwrite buf bytes) in
      let answers : List TcpMessage = fixed_answers msg.code msg.contents in
      let later : List TcpMessage =
        all_answers (map parse (laid (overwrite buf bytes) (chunks_of rest))) in
      let answered = respond_to_client_lem msg ∙ respond-fixed msg.code msg.contents in
      elim (Bool-cases (asks_blank msg.code msg.contents)) [
        | inl blank ↦ rw (answered, blank) refl
        | inr other ↦
            rw (answered, other)
              (run-fixed (overwrite buf bytes) rest (sent ++ answers)
                ∙ rw (append_assoc sent answers later) refl)
      ]

  -- A whole connection to a client, over any results of `recv` and whatever the client has downloaded.
  -- The parser makes one message of each chunk that comes before the connection ends, of the newest bytes
  -- at each place of the buffer. If one of these messages asks for a fragment of the torrent with the
  -- hash 0, the run is undefined behaviour. Else it comes to its end and has sent fixed answers, in order:
  -- OK for an OK, an empty list for a list request, `F_NO_FILE` for a fragment request, nothing else; none
  -- of them lists a segment or carries bytes of one.
  pub run_responder-fixed :
      (buf : List ℕ) (events : List Recv)
      → (seen : List (List ℕ)) × SeesNewest buf [] (chunks_of events) seen
        × (run_responder parse buf events [] ≡ (
            if any (λ m. asks_blank m.code m.contents) (map parse seen)
            then undefined
            else returns tt (all_answers (map parse seen))))
        × (any carries_segment (all_answers (map parse seen)) ≡ false)
  run_responder-fixed buf events = (
    laid buf (chunks_of events),
    laid-SeesNewest buf buf [] (chunks_of events) (λ i. refl),
    run-fixed buf events [],
    all_answers-carries (map parse (laid buf (chunks_of events))),
  )
