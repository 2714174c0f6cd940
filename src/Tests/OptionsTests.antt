-- ===== src/Tests/OptionsTests.antt =====
-- The option loops at concrete options.
use p2p_network.Base.{ℕ, ◌≡◌, ◌≢◌, ◌≤◌, refl, some, [], ◌∷◌, List}
use p2p_network.Base.Int.{pos}
use p2p_network.Shared.{server_default_port}
use p2p_network.Shared.Options.{
  GetoptResult, port_option, tracker_option, ClientOptions, tracker_port, menu_options,
  menu_options-valid,
}

abbrev given_port : List GetoptResult
given_port = port_option (pos 2000) ∷ []

default_kept : tracker_port given_port ≡ some server_default_port
unfolding tracker_port
default_kept = refl

abbrev given_both : List GetoptResult
given_both = port_option (pos 2000) ∷ tracker_option (b'1' ∷ []) ∷ []

abbrev both : ClientOptions
both = record { port = pos 2000; tracker_ip = b'1' ∷ [] }

menu_started : menu_options given_both ≡ some both
unfolding menu_options
menu_started = refl

menu_options-valid_example :
    (n : ℕ) × (both.port ≡ pos n) × (1024 ≤ n) × (n ≤ 65535) × (both.tracker_ip ≢ [])
menu_options-valid_example = menu_options-valid given_both both menu_started
