-- ===== src/Client/Menu.antt =====
-- client/main.cpp: `runMenu`, one round of its loop after another, and `main`. The two extractions from
-- `std::cin` are the arguments `read_int` and `read_word`: what was read and the input that is left, or
-- `none` if the extraction fails.
pub mod Downloads
pub mod Rounds
use p2p_network.Base.{
  ℕ, zero, suc, Option, none, some, List, [], ◌∷◌, ◌++◌, if◌then◌else◌, ◌==◌, Text, Outcome,
  returns, undefined,
}
use p2p_network.Base.Int.{ℤ, pos, negsuc}
use p2p_network.Shared.Disk.{Disk}
use p2p_network.Shared.Torrent.{Torrent, of_file}
use p2p_network.Shared.Options.{GetoptResult, ClientOptions, menu_options}
use p2p_network.Shared.Listener.{ListenCalls, Listened, conn_listen}
use p2p_network.Client.File.{File, id_of_hash}
use p2p_network.Client.LocalDatabase.{LocalDatabase, load_from_file, is_file_in_database, get_file}
use p2p_network.Client.FileManager.{FileManager, create_local_file}

-- The client between two rounds. `started` are the torrents whose download manager was started.
pub record Client : Type 0 where
  pub database : LocalDatabase
  pub disk : Disk
  pub input : Text
  pub started : List Torrent

-- How the menu ends: by the choice 5, in `connListen`, by `std::terminate`, in undefined behaviour, or
-- not at all, since a stream that has failed stays so. The last is for fuel that ran out.
pub data Ending : Type 0 where
  quits : Client → Ending
  listens : Client → Listened → Ending
  terminates : Client → Ending
  misbehaves : Ending
  repeats : Client → Ending
  out_of_fuel : Ending

pub data Round : Type 0 where
  again : Client → Round
  over : Ending → Round

pub data Choice : Type 0 where
  add create download listen quit other : Choice

unfoldable pub choice_of : ℤ → Choice
choice_of (pos n) =
    if n == 1
    then add
    else if n == 2
    then create
    else if n == 3
    then download
    else if n == 4
    then listen
    else if n == 5
    then quit
    else other
choice_of (negsuc n) = other

-- Case 1. `loadFromFile` clears the database, or leaves it where the list is missing.
loaded_list : Client → Outcome LocalDatabase ℕ → Round
loaded_list c (returns r db) = again (record c { database = db })
loaded_list c _ = over misbehaves

add_list : Client → Text → Round
unfolding loaded_list
add_list c name = loaded_list c (load_from_file c.disk name c.database)

-- A `FileManager` that was just made, over the files of the disk.
manager_of : Disk → FileManager
manager_of d = record { read_locked = []; write_locked = []; files = d.files }

created : Client → Outcome FileManager (Unit {0}) → Round
created c (returns r fm) = again (record c { disk = record c.disk { files = fm.files } })
created c _ = over misbehaves

-- Case 2, with the torrent that its constructor reads.
create_file : Client → Option Torrent → Round
unfolding created manager_of
create_file c none = over misbehaves
create_file c (some t) =
    created c (create_local_file (c.disk.writable t.file_name) t (manager_of c.disk))

-- The thread of the download is neither joined nor detached when its object goes out of scope.
download_found : Client → Torrent → Option File → Round
download_found c t none = over misbehaves
download_found c t (some f) = over (terminates (record c { started = c.started ++ t ∷ [] }))

-- Case 3, with the torrent that its constructor reads.
request_download : Client → Option Torrent → Round
unfolding download_found
request_download c none = over misbehaves
request_download c (some t) =
    if is_file_in_database c.database.files t
    then download_found c t (get_file c.database.files (id_of_hash t.hashed))
    else again c

-- The torrent of case 3 is made before the look at the stream, then from the empty name.
request_failed : Client → Option Torrent → Round
request_failed c none = over misbehaves
request_failed c (some t) = over (repeats c)

module _ (read_int : Text → Option (ℤ × Text)) (read_word : Text → Option (Text × Text))
    (calls : ListenCalls) where
  -- A file name that cannot be read leaves the stream failed, and the loop for the next choice does
  -- not end.
  add_choice : Client → Option (Text × Text) → Round
  unfolding add_list
  add_choice c none = over (repeats c)
  add_choice c (some (name, rest)) = add_list (record c { input = rest }) name

  create_choice : Client → Option (Text × Text) → Round
  unfolding create_file
  create_choice c none = over (repeats c)
  create_choice c (some (name, rest)) =
      create_file (record c { input = rest }) (of_file c.disk name)

  download_choice : Client → Option (Text × Text) → Round
  unfolding request_download request_failed
  download_choice c none = request_failed c (of_file c.disk [])
  download_choice c (some (name, rest)) =
      request_download (record c { input = rest }) (of_file c.disk name)

  -- The `switch`; another number makes nothing happen.
  choose : Client → Choice → Round
  unfolding add_choice create_choice download_choice
  choose c add = add_choice c (read_word c.input)
  choose c create = create_choice c (read_word c.input)
  choose c download = download_choice c (read_word c.input)
  choose c listen = over (listens c (conn_listen calls))
  choose c quit = over (quits c)
  choose c other = again c

  chosen : Client → Option (ℤ × Text) → Round
  unfolding choose choice_of
  chosen c none = over (repeats c)
  chosen c (some (n, rest)) = choose (record c { input = rest }) (choice_of n)

  unfoldable pub menu_round : Client → Round
  unfolding chosen
  menu_round c = chosen c (read_int c.input)

  next_round : (Client → Ending) → Round → Ending
  next_round menu (again c) = menu c
  next_round menu (over e) = e

  unfoldable pub run_menu : ℕ → Client → Ending
  unfolding menu_round next_round
  run_menu zero c = out_of_fuel
  run_menu (suc fuel) c = next_round (run_menu fuel) (menu_round c)

  started_with : Option ClientOptions → ℕ → Disk → Text → Option Ending
  unfolding run_menu
  started_with none fuel d input = none
  started_with (some o) fuel d input = some (
      run_menu fuel
        (record { database = record { files = [] }; disk = d; input = input; started = [] }))

  -- `main` of the client; `none` where it ends before the menu.
  unfoldable pub client_main : List GetoptResult → ℕ → Disk → Text → Option Ending
  unfolding started_with
  client_main os fuel d input = started_with (menu_options os) fuel d input
