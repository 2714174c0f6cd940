-- ===== src/Shared/Options.antt =====
-- The option loops of server/main.cpp and client/main.cpp over what `getopt` returns, one result after
-- another; the end of the list is the result -1. The `int` of a port is what `strtol` made of its text.
use p2p_network.Base.{
  ℕ, ◌≤◌, ◌≡◌, ◌≢◌, refl, Bool, true, false, ◌||◌, Option, none, some, List, [], ◌∷◌, arith, ltb,
  if◌then◌else◌, Text,
}
use p2p_network.Base.Int.{ℤ, pos, negsuc}
use p2p_network.Shared.{server_default_port, client_default_port}

pub data GetoptResult : Type 0 where
  port_option : ℤ → GetoptResult
  tracker_option : Text → GetoptResult
  other_option : GetoptResult

-- `potentialPort<1024 || potentialPort>65535`
unfoldable pub is_port_invalid : ℤ → Bool
is_port_invalid (pos n) = ltb n 1024 || ltb 65535 n
is_port_invalid (negsuc n) = true

-- The tracker's loop: `none` is its `exit(1)`. A valid port is not kept, and any other result but -1
-- ends the loop as well.
unfoldable pub tracker_port : List GetoptResult → Option ℕ
unfolding is_port_invalid
tracker_port [] = some server_default_port
tracker_port (port_option p ∷ os) =
    let rest = tracker_port os in if is_port_invalid p then none else rest
tracker_port (_ ∷ os) = some server_default_port

-- The port and the tracker's address that a client starts its menu with.
pub record ClientOptions : Type 0 where
  pub port : ℤ
  pub tracker_ip : Text

unfoldable pub client_options : List GetoptResult → ClientOptions → Option ClientOptions
unfolding is_port_invalid
client_options [] o = some o
client_options (port_option p ∷ os) o =
    let rest = client_options os (record o { port = p }) in if is_port_invalid p then none else rest
client_options (tracker_option t ∷ os) o = client_options os (record o { tracker_ip = t })
client_options (other_option ∷ os) o = client_options os o

with_tracker : Option ClientOptions → Text → Option ClientOptions
with_tracker o [] = none
with_tracker o (b ∷ bs) = o

tracker_given : Option ClientOptions → Option ClientOptions
unfolding with_tracker
tracker_given none = none
tracker_given (some o) = with_tracker (some o) o.tracker_ip

-- What the client's `main` calls `runMenu` with, if it does.
unfoldable pub menu_options : List GetoptResult → Option ClientOptions
unfolding client_options tracker_given
menu_options os =
    tracker_given (client_options os (record { port = pos client_default_port; tracker_ip = [] }))

-- Whatever options it is given, the tracker listens on its default port or exits: a port that the
-- option `-p` gives is never used.
pub tracker_port-default :
    (os : List GetoptResult) (port : ℕ) → tracker_port os ≡ some port → port ≡ server_default_port
unfolding tracker_port
tracker_port-default [] port e = ground arith
tracker_port-default (port_option p ∷ os) port e = ground (arith, tracker_port-default os port)
tracker_port-default (tracker_option t ∷ os) port e = ground arith
tracker_port-default (other_option ∷ os) port e = ground arith

client_options-valid :
    (os : List GetoptResult) (o o' : ClientOptions)
    → is_port_invalid o.port ≡ false
    → client_options os o ≡ some o'
    → is_port_invalid o'.port ≡ false
unfolding client_options
client_options-valid [] o o' valid e = ground arith
client_options-valid (port_option p ∷ os) o o' valid e =
    ground (arith, client_options-valid os (record o { port = p }) o')
client_options-valid (tracker_option t ∷ os) o o' valid e =
    client_options-valid os (record o { tracker_ip = t }) o' valid e
client_options-valid (other_option ∷ os) o o' valid e = client_options-valid os o o' valid e

tracker_given_lem :
    (r : Option ClientOptions) (o : ClientOptions)
    → tracker_given r ≡ some o
    → (r ≡ some o) × (o.tracker_ip ≢ [])
unfolding tracker_given
tracker_given_lem none o e = absurd (ground arith)
tracker_given_lem (some r) o e = kept r.tracker_ip refl e
  where
    kept :
        (t : Text)
        → r.tracker_ip ≡ t
        → with_tracker (some r) t ≡ some o
        → (some r ≡ some o) × (o.tracker_ip ≢ [])
    kept [] same h = absurd (ground arith)
    kept (b ∷ bs) same h = (h, λ empty. ground (arith, same, h, empty))

-- If the client's `main` starts its menu, then with a port from 1024 to 65535 and with an address of
-- the tracker that is not empty.
pub menu_options-valid :
    (os : List GetoptResult) (o : ClientOptions)
    → menu_options os ≡ some o
    → (n : ℕ) × (o.port ≡ pos n) × (1024 ≤ n) × (n ≤ 65535) × (o.tracker_ip ≢ [])
unfolding menu_options
menu_options-valid os o e =
    let start : ClientOptions = record { port = pos client_default_port; tracker_ip = [] } in
    let (given, address) = tracker_given_lem (client_options os start) o e in
    ports o.port refl (client_options-valid os start o refl given) address
  where
    ports :
        (p : ℤ)
        → o.port ≡ p
        → is_port_invalid o.port ≡ false
        → o.tracker_ip ≢ []
        → (n : ℕ) × (o.port ≡ pos n) × (1024 ≤ n) × (n ≤ 65535) × (o.tracker_ip ≢ [])
    ports (pos n) same valid address =
        (n, same, ground (arith, same, valid), ground (arith, same, valid), address)
    ports (negsuc n) same valid address = absurd (ground (arith, same, valid))
