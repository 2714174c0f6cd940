-- ===== src/Client/Responder.antt =====
-- client/networking/ResponderThread.cpp: the thread that answers another client. Its `respond` makes a
-- database of its own on each call, with one file, and looks nothing up in the client's.
pub mod Answers
pub mod Silence
pub mod Whole
use p2p_network.Base.{
  ℕ, zero, suc, ◌+◌, List, [], ◌∷◌, ◌++◌, ◌==◌, if◌then◌else◌, Outcome, Action, then_run, returns,
  undefined,
}
use p2p_network.Base.Int.{rounds}
use p2p_network.Shared.Message.{
  TcpCode, ok, cc_list_request, cc_list_response, cc_fragment_request, cc_fragment_response,
  TcpMessage, Contents, f_no_file, f_frag_complete, FragmentResponse, unset, list_response,
  fragment_response, list_request_hash, fragment_request_hash, fragment_request_num, no_fragment,
}
use p2p_network.Shared.Connection.{Recv, received, ended, overwrite}
use p2p_network.Shared.Torrent.{Torrent, new_torrent}
use p2p_network.Client.Segment.{is_completed_state}
use p2p_network.Client.File.{File, new_file, get_segment_state}
use p2p_network.Client.LocalDatabase.{LocalDatabase, add_file}

-- `Torrent testTorrent(1337,10, "./path")`
abbrev pub test_torrent : Torrent
test_torrent = new_torrent 1337 10 (b'.' ∷ b'/' ∷ b'p' ∷ b'a' ∷ b't' ∷ b'h' ∷ [])

unfoldable pub test_database : LocalDatabase
test_database =
    add_file (record { files = [] })
      (new_file test_torrent (b'.' ∷ b'/' ∷ b'p' ∷ b'a' ∷ b't' ∷ b'h' ∷ []))

-- `set_fragments(totalSegs++, i)` writes to an index that the field does not have: the first complete
-- segment is undefined behaviour. The list of complete segments of one file, from segment `i` on.
unfoldable pub list_segments : File → ℕ → ℕ → Action (List ℕ) (Unit {0})
list_segments f i zero fragments = returns tt fragments
list_segments f i (suc n) fragments =
    let rest = list_segments f (i + 1) n fragments in
    elim (get_segment_state i f) [
      | returns state _ ↦ (if is_completed_state state then undefined else rest)
      | _ ↦ undefined
    ]

unfoldable pub list_files : List File → ℕ → Action (List ℕ) (Unit {0})
list_files [] hash fragments = returns tt fragments
list_files (f ∷ fs) hash fragments =
    let here = list_segments f 0 (rounds f.num_of_segments) fragments in
    if hash == f.torrent.hashed
    then then_run here (λ _ more. list_files fs hash more)
    else list_files fs hash fragments

-- The bytes of a segment are those at its data pointer, whose file never has data: undefined.
unfoldable pub find_fragment : List File → ℕ → ℕ → Action FragmentResponse (Unit {0})
find_fragment [] hash num r = returns tt r
find_fragment (f ∷ fs) hash num r =
    let rest = find_fragment fs hash num r in
    if f.torrent.hashed == hash
    then elim (get_segment_state num f) [
      | returns state _ ↦ (if is_completed_state state then undefined else rest)
      | _ ↦ undefined
    ]
    else rest

reply : TcpCode → Contents → TcpMessage
reply code contents = record { code = code; contents = contents }

listed : ℕ → Outcome (List ℕ) (Unit {0}) → Outcome (List TcpMessage) (Unit {0})
unfolding reply
listed hash (returns _ fragments) = returns tt (
    reply cc_list_response (
      list_response
        (record { hashed_torrent = hash; file_code = f_frag_complete; fragments = fragments }))
    ∷ [])
listed hash _ = undefined

fragment_found : Outcome FragmentResponse (Unit {0}) → Outcome (List TcpMessage) (Unit {0})
unfolding reply
fragment_found (returns _ r) = returns tt (reply cc_fragment_response (fragment_response r) ∷ [])
fragment_found _ = undefined

-- What `respond` sends, over the files of its database.
unfoldable pub respond_from : List File → TcpCode → Contents → Outcome (List TcpMessage) (Unit {0})
unfolding reply listed fragment_found list_files find_fragment
respond_from fs ok contents = returns tt (reply ok unset ∷ [])
respond_from fs cc_list_request contents =
    listed (list_request_hash contents) (list_files fs (list_request_hash contents) [])
respond_from fs cc_fragment_request contents = fragment_found (
    find_fragment fs (fragment_request_hash contents) (fragment_request_num contents)
      (record no_fragment { file_code = f_no_file }))
respond_from fs _ contents = returns tt []

unfoldable pub respond_to_client : TcpMessage → Outcome (List TcpMessage) (Unit {0})
unfolding respond_from test_database
respond_to_client msg = respond_from test_database.files msg.code msg.contents

-- `run`: the loop over the results of `recv`, with the messages that were sent.
unfoldable pub run_responder :
    (List ℕ → TcpMessage) → List ℕ → List Recv → Action (List TcpMessage) (Unit {0})
unfolding respond_to_client overwrite
run_responder parse buf [] sent = returns tt sent
run_responder parse buf (ended ∷ rest) sent = returns tt sent
run_responder parse buf (received bytes ∷ rest) sent =
    then_run (respond_to_client (parse (overwrite buf bytes)))
      (λ _ answers. run_responder parse (overwrite buf bytes) rest (sent ++ answers))
