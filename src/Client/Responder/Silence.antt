-- ===== src/Client/Responder/Silence.antt =====
-- client/networking/ResponderThread.cpp: a whole connection to a client.
use p2p_network.Base.{
  ℕ, ◌≡◌, refl, Bool, true, false, List, [], ◌∷◌, ◌++◌, any, arith, Outcome, returns, undefined,
  sym, throws, unfinished, then_run, ◌∙◌,
}
use p2p_network.Shared.Message.{
  TcpCode, ok, cc_list_request, cc_fragment_request, TcpMessage, Contents, list_response,
  fragment_response,
}
use p2p_network.Shared.Connection.{Recv, received, ended, overwrite}
use p2p_network.Client.FileManager.Storing.{any-append}
use p2p_network.Client.Responder.{respond_to_client, run_responder}
use p2p_network.Client.Responder.Answers.{answer_without_files, respond_to_client_lem}

has_some {ℓ} : {A : Type ℓ} → List A → Bool
has_some [] = false
has_some (x ∷ xs) = true

carried : Contents → Bool
unfolding has_some
carried (list_response l) = has_some l.fragments
carried (fragment_response r) = has_some r.fragment
carried _ = false

-- A message that lists a segment or carries bytes of one.
unfoldable pub carries_segment : TcpMessage → Bool
unfolding carried
carries_segment msg = carried msg.contents

answer_without_files-carries :
    (code : TcpCode) (contents : Contents) (sent : List TcpMessage)
    → answer_without_files code contents ≡ returns tt sent
    → any carries_segment sent ≡ false
unfolding carries_segment
answer_without_files-carries ok contents sent e = ground arith
answer_without_files-carries cc_list_request contents sent e = ground arith
answer_without_files-carries cc_fragment_request contents sent e = ground arith
answer_without_files-carries _ contents sent e = ground arith

-- A run that goes on after one answer, if what goes on keeps the property.
after_answer :
    (msg : TcpMessage) (sent sent' : List TcpMessage)
    (run : List TcpMessage → Outcome (List TcpMessage) (Unit {0}))
    (o : Outcome (List TcpMessage) (Unit {0}))
    → respond_to_client msg ≡ o
    → any carries_segment sent ≡ false
    → ((more : List TcpMessage)
        → any carries_segment more ≡ false
        → run more ≡ returns tt sent'
        → any carries_segment sent' ≡ false)
    → then_run o (λ _ answers. run (sent ++ answers)) ≡ returns tt sent'
    → any carries_segment sent' ≡ false
after_answer msg sent sent' run (returns _ answers) known none_yet later e =
    let none_now : any carries_segment answers ≡ false =
      answer_without_files-carries msg.code msg.contents answers
        (sym (respond_to_client_lem msg) ∙ known) in
    later (sent ++ answers)
      (any-append carries_segment sent answers ∙ ground (arith, none_now, none_yet)) e
after_answer msg sent sent' run (throws s) known none_yet later e = absurd (ground arith)
after_answer msg sent sent' run undefined known none_yet later e = absurd (ground arith)
after_answer msg sent sent' run unfinished known none_yet later e = absurd (ground arith)

-- Over a whole connection a client never sends a message that lists a segment or carries bytes of
-- one, whatever it is asked, for as long as its behaviour is defined.
pub run_responder-carries_segment :
    (parse : List ℕ → TcpMessage) (buf : List ℕ) (events : List Recv) (sent sent' : List TcpMessage)
    → any carries_segment sent ≡ false
    → run_responder parse buf events sent ≡ returns tt sent'
    → any carries_segment sent' ≡ false
unfolding run_responder
run_responder-carries_segment parse buf [] sent sent' none_yet e = ground arith
run_responder-carries_segment parse buf (ended ∷ rest) sent sent' none_yet e = ground arith
run_responder-carries_segment parse buf (received bytes ∷ rest) sent sent' none_yet e =
    after_answer (parse (overwrite buf bytes)) sent sent'
      (run_responder parse (overwrite buf bytes) rest)
      (respond_to_client (parse (overwrite buf bytes))) refl none_yet
      (λ more. run_responder-carries_segment parse (overwrite buf bytes) rest more sent') e
