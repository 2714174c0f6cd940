-- ===== src/Tests/MenuTests.antt =====
-- The client's menu at concrete inputs, which are one digit and one byte of a name after another.
use p2p_network.Base.{
  ℕ, ◌^◌, ◌-◌, ◌≤◌, ◌<◌, ◌≡◌, ◌||◌, refl, Option, none, some, List, [], ◌∷◌, arith, ltb,
  if◌then◌else◌, length, Text, text_eq, replicate, ◌++◌, subst, true, le_value,
}
use p2p_network.Base.Int.{ℤ, pos}
use p2p_network.Shared.Disk.{Disk}
use p2p_network.Shared.Options.{GetoptResult, tracker_option}
use p2p_network.Shared.Listener.{ListenCalls, waits, conn_listen, tracker_main, open_listener}
use p2p_network.Shared.Options.{menu_options, tracker_port}
use p2p_network.Shared.Torrent.{of_file, read_string, read_torrent, set_path, empty_torrent}
use p2p_network.Client.File.{blank_file, copy_file, id_of_hash, get_id}
use p2p_network.Client.LocalDatabase.{
  load_from_file, load_entry, add_file, is_file_in_database, get_file,
}
use p2p_network.Client.Menu.{Client, quits, terminates, run_menu, client_main}
use p2p_network.Client.Menu.Downloads.{client_main-HasNoDownload}
use p2p_network.Client.Menu.Rounds.{Rounds, run_menu-Rounds}

abbrev read_digit : Text → Option (ℤ × Text)
read_digit [] = none
read_digit (b ∷ bs) = if ltb b 48 || ltb 57 b then none else some (pos (b - 48), bs)

abbrev read_byte : Text → Option (Text × Text)
read_byte [] = none
read_byte (b ∷ bs) = some (b ∷ [], bs)

-- One connection is accepted, and nobody else comes.
abbrev one_visitor : ListenCalls
one_visitor = record {
  made = some 3;
  bound = some 0;
  listening = some 0;
  accepts = record { connection = some 4; thread_made = true } ∷ [];
}

-- On the disk are a list `l` of one torrent file, and that file, `t`, with the hash 7.
abbrev listed_files : Text → Option (List ℕ)
listed_files name =
    if text_eq name (b'l' ∷ [])
    then some (1 ∷ 0 ∷ 1 ∷ 0 ∷ 0 ∷ 0 ∷ b't' ∷ [])
    else if text_eq name (b't' ∷ [])
    then some (7 ∷ replicate 7 0 ++ 2 ∷ replicate 3 0 ++ 1 ∷ replicate 3 0 ++ b'n' ∷ [])
    else none

abbrev shelf : Disk
shelf = record { files = listed_files; writable = λ _. true }

abbrev tracker_options : List GetoptResult
tracker_options = tracker_option (b'1' ∷ []) ∷ []

-- The list is loaded, its torrent requested, and the menu left.
abbrev script : Text
script = b'1' ∷ b'l' ∷ b'3' ∷ b't' ∷ b'5' ∷ []

abbrev at_end : Client
at_end = record {
  database = record { files = blank_file ∷ [] };
  disk = shelf;
  input = [];
  started = [];
}

left_menu :
    client_main read_digit read_byte one_visitor tracker_options 6 shelf script
    ≡ some (quits at_end)
unfolding client_main menu_options load_from_file add_file copy_file is_file_in_database text_eq
    le_value of_file load_entry read_string read_torrent set_path
left_menu = refl

client_main-HasNoDownload_example : at_end.started ≡ []
client_main-HasNoDownload_example =
    client_main-HasNoDownload read_digit read_byte one_visitor tracker_options 6 shelf script
      (quits at_end) left_menu

-- A torrent file that is missing has the hash 0, as the blank file has: its download starts.
missing_requested :
    client_main read_digit read_byte one_visitor tracker_options 6 shelf
      (b'1' ∷ b'l' ∷ b'3' ∷ b'x' ∷ [])
    ≡ some
        (terminates (record at_end { started = record empty_torrent { size = 2 ^ 32 - 1 } ∷ [] }))
unfolding client_main menu_options load_from_file add_file copy_file is_file_in_database text_eq
    le_value of_file get_file get_id id_of_hash load_entry read_string read_torrent set_path
missing_requested = refl

digit_shorter :
    (s : Text) (n : ℤ) (rest : Text) → read_digit s ≡ some (n, rest) → length rest < length s
digit_shorter [] n rest e = absurd (ground arith)
digit_shorter (b ∷ bs) n rest e =
    let same : bs ≡ rest = ground (arith, e) in
    subst (λ x. length x < length (b ∷ bs)) same (omega arith)

byte_shorter : (s word rest : Text) → read_byte s ≡ some (word, rest) → length rest ≤ length s
byte_shorter [] word rest e = absurd (ground arith)
byte_shorter (b ∷ bs) word rest e =
    let same : bs ≡ rest = ground (arith, e) in
    subst (λ x. length x ≤ length (b ∷ bs)) same (omega arith)

abbrev at_shelf : Client
at_shelf = record { database = record { files = [] }; disk = shelf; input = script; started = [] }

run_menu-Rounds_example :
    Rounds read_digit read_byte one_visitor
      (run_menu read_digit read_byte one_visitor 6 at_shelf)
      at_shelf
run_menu-Rounds_example =
    run_menu-Rounds read_digit read_byte one_visitor digit_shorter byte_shorter 6 at_shelf
      (omega arith)

visited : conn_listen one_visitor ≡ waits (4 ∷ [])
unfolding conn_listen
visited = refl

tracker_visited : tracker_main [] one_visitor ≡ waits (4 ∷ [])
unfolding tracker_main tracker_port
tracker_visited = refl

not_bound : open_listener (record one_visitor { bound = none }) ≡ none
unfolding open_listener
not_bound = refl
