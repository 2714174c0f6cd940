-- ===== src/Tracker/Responder/Buffer.antt =====
-- The receive buffer of server/TrackerThread.cpp: which bytes the parser is given, message by message.
use p2p_network.Base.{ℕ, ◌≡◌, refl, ap, List, [], ◌∷◌, ◌++◌, map, Text, Action, ◌>>=◌, pure}
use p2p_network.Shared.Message.{TcpMessage}
use p2p_network.Shared.Connection.{Connection, received, overwrite}
use p2p_network.Shared.Wire.{SeesNewest, laid, laid-SeesNewest}
use p2p_network.Tracker.Database.{Database}
use p2p_network.Tracker.Responder.{respond, serve}

-- The messages answered one after another.
abbrev pub respond_all :
    (Text → ℕ) → ℕ → Connection → List TcpMessage → Action Database (List TcpMessage)
respond_all hash fuel conn [] = pure []
respond_all hash fuel conn (m ∷ ms) = do
  answers ← respond hash fuel conn m
  later ← respond_all hash fuel conn ms
  pure (answers ++ later)

module _ (hash : Text → ℕ) (fuel : ℕ) (parse : List ℕ → TcpMessage) (conn : Connection) where
  serve-respond_all :
      (buf : List ℕ) (chunks : List (List ℕ))
      → serve hash fuel parse conn buf (map received chunks)
        ≡ respond_all hash fuel conn (map parse (laid buf chunks))
  unfolding serve
  serve-respond_all buf [] = refl
  serve-respond_all buf (c ∷ chunks) =
      ap
        (λ (rest : Action Database (List TcpMessage)). do
          answers ← respond hash fuel conn (parse (overwrite buf c))
          later ← rest
          pure (answers ++ later))
        (serve-respond_all (overwrite buf c) chunks)

  -- A connection's run over chunks of bytes answers one message for each, one after another. The bytes
  -- that the parser is given for a message are those of its own chunk and, behind them, what the
  -- buffer held before: at each place the byte of the latest chunk that was long enough to reach it,
  -- and the buffer's first content where none was.
  pub serve-SeesNewest :
      (buf : List ℕ) (chunks : List (List ℕ))
      → (seen : List (List ℕ)) × SeesNewest buf [] chunks seen
        × (serve hash fuel parse conn buf (map received chunks)
            ≡ respond_all hash fuel conn (map parse seen))
  serve-SeesNewest buf chunks =
      (laid buf chunks, laid-SeesNewest buf buf [] chunks (λ i. refl), serve-respond_all buf chunks)
