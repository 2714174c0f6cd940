-- ===== src/Client/Responder/Answers.antt =====
-- client/networking/ResponderThread.cpp: what a client tells the clients that ask it.
use p2p_network.Base.{
  ◌≡◌, refl, List, [], ◌∷◌, ◌==◌, if◌then◌else◌, Outcome, returns, undefined, arith,
}
use p2p_network.Shared.Message.{
  TcpCode, ok, cc_list_request, cc_list_response, cc_fragment_request, cc_fragment_response,
  TcpMessage, Contents, f_no_file, f_frag_complete, unset, list_response, fragment_response,
  list_request_hash, fragment_request_hash, no_fragment,
}
use p2p_network.Client.File.{copy_file, get_segment_state}
use p2p_network.Client.LocalDatabase.{add_file}
use p2p_network.Client.Responder.{list_segments, respond_to_client}

abbrev one_message : TcpCode → Contents → Outcome (List TcpMessage) (Unit {0})
one_message code contents = returns tt (record { code = code; contents = contents } ∷ [])

-- The answers of a client that has no file at all.
abbrev pub answer_without_files : TcpCode → Contents → Outcome (List TcpMessage) (Unit {0})
answer_without_files ok contents = one_message ok unset
answer_without_files cc_list_request contents = one_message cc_list_response (
    list_response (record {
      hashed_torrent = list_request_hash contents;
      file_code = f_frag_complete;
      fragments = [];
    }))
answer_without_files cc_fragment_request contents =
    if 0 == fragment_request_hash contents
    then undefined
    else one_message cc_fragment_response
        (fragment_response (record no_fragment { file_code = f_no_file }))
answer_without_files _ contents = returns tt []

answers :
    (code : TcpCode) (contents : Contents)
    → respond_to_client (record { code = code; contents = contents })
      ≡ answer_without_files code contents
unfolding respond_to_client add_file copy_file get_segment_state list_segments
answers ok contents = refl
answers cc_list_request contents = ground arith
answers cc_fragment_request contents = ground arith
answers _ contents = refl

-- Whatever a client downloads, it answers every list request by a list of no fragments with the code
-- `F_FRAG_COMPLETE`, and every fragment request by `F_NO_FILE`; a fragment request for the hash 0 is
-- undefined behaviour, an OK is answered by OK, and any other message by nothing.
pub respond_to_client_lem :
    (msg : TcpMessage) → respond_to_client msg ≡ answer_without_files msg.code msg.contents
respond_to_client_lem msg = answers msg.code msg.contents
