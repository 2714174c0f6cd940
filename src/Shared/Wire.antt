-- ===== src/Shared/Wire.antt =====
-- sendTcpMsg of shared/sharedUtils.cpp, and what a receive buffer holds that is written again and
-- again. `serialize` stands for `SerializeToArray` of protobuf.
use p2p_network.Base.{
  ℕ, zero, suc, ◌≡◌, refl, Option, none, some, List, [], ◌∷◌, arith, ltb, if◌then◌else◌, length,
  take, drop, get_elem?,
}
use p2p_network.Shared.Message.{TcpMessage}
use p2p_network.Shared.Connection.{overwrite}

-- The bytes that go out and the result, by that of `send`: a number of bytes, or `none` for -1.
unfoldable pub send_tcp_msg : (TcpMessage → List ℕ) → Option ℕ → TcpMessage → List ℕ × Option ℕ
send_tcp_msg serialize none msg = ([], none)
send_tcp_msg serialize (some sent) msg = (take sent (serialize msg), some sent)

-- The byte at `i` of the latest chunk that reaches so far, and else that of the buffer at first; the
-- chunks are given with the latest in front.
abbrev pub newest_byte : List ℕ → List (List ℕ) → ℕ → Option ℕ
newest_byte buf [] i = get_elem? buf i
newest_byte buf (c ∷ older) i = if ltb i (length c) then get_elem? c i else newest_byte buf older i

drop-nil : (n : ℕ) → drop {A = ℕ} n [] ≡ []
drop-nil zero = refl
drop-nil (suc n) = refl

pub get_elem?-overwrite :
    (buf bytes : List ℕ) (i : ℕ)
    → get_elem? (overwrite buf bytes) i
      ≡ (if ltb i (length bytes) then get_elem? bytes i else get_elem? buf i)
unfolding overwrite
get_elem?-overwrite buf [] i = ground arith
get_elem?-overwrite buf (b ∷ bs) zero = ground arith
get_elem?-overwrite [] (b ∷ bs) (suc i) =
    ground (arith, get_elem?-overwrite [] bs i, drop-nil (length bs))
get_elem?-overwrite (x ∷ buf) (b ∷ bs) (suc i) = ground (arith, get_elem?-overwrite buf bs i)

-- `seen` has a list of bytes for each of `chunks`: at each place the byte of the latest chunk so far
-- that reaches to it, and that of `buf` where none does. `before` are earlier chunks, the latest first.
abbrev pub SeesNewest : List ℕ → List (List ℕ) → List (List ℕ) → List (List ℕ) → Type 0
SeesNewest buf before [] [] = Unit
SeesNewest buf before (c ∷ chunks) (b ∷ seen) =
    ((i : ℕ) → get_elem? b i ≡ newest_byte buf (c ∷ before) i)
    × SeesNewest buf (c ∷ before) chunks seen
SeesNewest _ _ _ _ = ⊥

-- The chunks laid into a buffer one after another.
abbrev pub laid : List ℕ → List (List ℕ) → List (List ℕ)
laid buf [] = []
laid buf (c ∷ chunks) = overwrite buf c ∷ laid (overwrite buf c) chunks

pub laid-SeesNewest :
    (first buf : List ℕ) (before chunks : List (List ℕ))
    → ((i : ℕ) → get_elem? buf i ≡ newest_byte first before i)
    → SeesNewest first before chunks (laid buf chunks)
laid-SeesNewest first buf before [] h = tt
laid-SeesNewest first buf before (c ∷ chunks) h =
    (newest, laid-SeesNewest first (overwrite buf c) (c ∷ before) chunks newest)
  where
    newest : (i : ℕ) → get_elem? (overwrite buf c) i ≡ newest_byte first (c ∷ before) i
    newest i = ground (arith, get_elem?-overwrite buf c i, h i)
