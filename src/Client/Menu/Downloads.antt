-- ===== src/Client/Menu/Downloads.antt =====
-- client/main.cpp: the downloads that the menu starts.
use p2p_network.Base.{
  ℕ, zero, suc, ◌≡◌, refl, ap, subst, Bool, true, false, Option, none, some, List, [], ◌∷◌, ◌++◌,
  arith, All, Text, Outcome, returns, throws, undefined, unfinished, if◌then◌else◌,
}
use p2p_network.Base.Int.{ℤ}
use p2p_network.Shared.Disk.{Disk}
use p2p_network.Shared.Torrent.{Torrent, of_file}
use p2p_network.Shared.Options.{GetoptResult, ClientOptions, menu_options}
use p2p_network.Shared.Listener.{ListenCalls}
use p2p_network.Client.File.{File, id_of_hash}
use p2p_network.Client.FileManager.{FileManager, create_local_file}
use p2p_network.Client.LocalDatabase.{LocalDatabase, load_from_file, is_file_in_database, get_file}
use p2p_network.Client.LocalDatabase.Blank.{IsBlank}
use p2p_network.Client.LocalDatabase.Loaded.{load_from_file-IsBlank, is_file_in_database-IsBlank}
use p2p_network.Client.Menu.{
  Client, Ending, quits, listens, terminates, repeats, Round, again, over, Choice, add, create,
  download, listen, quit, other, choice_of, loaded_list, add_list, created, create_file, manager_of,
  download_found, request_download, request_failed, add_choice, create_choice, download_choice,
  choose, chosen, next_round, run_menu, started_with, client_main,
}

-- Between two rounds no download has been started, and every file in the database is blank.
pub record Waiting (c : Client) : Type 0 where
  pub blank : All IsBlank c.database.files
  pub none_started : c.started ≡ []

-- What an ending says of the downloads: none was started, except that the first one, of a torrent with
-- the hash 0, ends the program by `std::terminate`.
abbrev pub HasNoDownload : Ending → Type 0
HasNoDownload (quits c) = c.started ≡ []
HasNoDownload (listens c l) = c.started ≡ []
HasNoDownload (repeats c) = c.started ≡ []
HasNoDownload (terminates c) = (t : Torrent) × (c.started ≡ t ∷ []) × (t.hashed ≡ 0)
HasNoDownload _ = Unit

abbrev Good : Round → Type 0
Good (again c) = Waiting c
Good (over e) = HasNoDownload e

add_list-Good : (c : Client) (name : Text) → Waiting c → Good (add_list c name)
unfolding add_list
add_list-Good c name w = after (load_from_file c.disk name c.database) refl
  where
    after :
        (o : Outcome LocalDatabase ℕ)
        → load_from_file c.disk name c.database ≡ o
        → Good (loaded_list c o)
    after (returns r db) e = record {
      blank = load_from_file-IsBlank c.disk name c.database db r w.blank e;
      none_started = w.none_started;
    }
    after (throws db) e = tt
    after undefined e = tt
    after unfinished e = tt

create_file-Good : (c : Client) (t : Option Torrent) → Waiting c → Good (create_file c t)
unfolding create_file
create_file-Good c none w = tt
create_file-Good c (some t) w =
    after (create_local_file (c.disk.writable t.file_name) t (manager_of c.disk))
  where
    after : (o : Outcome FileManager (Unit {0})) → Good (created c o)
    after (returns r fm) = record { blank = w.blank; none_started = w.none_started }
    after (throws fm) = tt
    after undefined = tt
    after unfinished = tt

download_found-Good :
    (c : Client) (t : Torrent) (f : Option File)
    → Waiting c
    → t.hashed ≡ 0
    → Good (download_found c t f)
unfolding download_found
download_found-Good c t none w h = tt
download_found-Good c t (some f) w h = (t, ap (λ ts. ts ++ t ∷ []) w.none_started, h)

request_download-Good : (c : Client) (t : Option Torrent) → Waiting c → Good (request_download c t)
unfolding request_download
request_download-Good c none w = tt
request_download-Good c (some t) w = after (is_file_in_database c.database.files t) refl
  where
    after :
        (b : Bool)
        → is_file_in_database c.database.files t ≡ b
        → Good (
            if b
            then download_found c t (get_file c.database.files (id_of_hash t.hashed))
            else again c)
    after true e =
        download_found-Good c t (get_file c.database.files (id_of_hash t.hashed)) w
          (is_file_in_database-IsBlank c.database.files t w.blank e)
    after false e = w

-- What is read from the input makes no difference.
read_on : (c : Client) (rest : Text) → Waiting c → Waiting (record c { input = rest })
read_on c rest w = record { blank = w.blank; none_started = w.none_started }

request_failed-Good : (c : Client) (t : Option Torrent) → Waiting c → Good (request_failed c t)
unfolding request_failed
request_failed-Good c none w = tt
request_failed-Good c (some t) w = w.none_started

module _ (read_int : Text → Option (ℤ × Text)) (read_word : Text → Option (Text × Text))
    (calls : ListenCalls) where
  add_choice-Good :
      (c : Client) (r : Option (Text × Text))
      → Waiting c
      → Good (add_choice read_int read_word calls c r)
  unfolding add_choice
  add_choice-Good c none w = w.none_started
  add_choice-Good c (some (name, rest)) w =
      add_list-Good (record c { input = rest }) name (read_on c rest w)

  create_choice-Good :
      (c : Client) (r : Option (Text × Text))
      → Waiting c
      → Good (create_choice read_int read_word calls c r)
  unfolding create_choice
  create_choice-Good c none w = w.none_started
  create_choice-Good c (some (name, rest)) w =
      create_file-Good (record c { input = rest }) (of_file c.disk name) (read_on c rest w)

  download_choice-Good :
      (c : Client) (r : Option (Text × Text))
      → Waiting c
      → Good (download_choice read_int read_word calls c r)
  unfolding download_choice
  download_choice-Good c none w = request_failed-Good c (of_file c.disk []) w
  download_choice-Good c (some (name, rest)) w =
      request_download-Good (record c { input = rest }) (of_file c.disk name) (read_on c rest w)

  choose-Good : (c : Client) (k : Choice) → Waiting c → Good (choose read_int read_word calls c k)
  unfolding choose
  choose-Good c add w = add_choice-Good c (read_word c.input) w
  choose-Good c create w = create_choice-Good c (read_word c.input) w
  choose-Good c download w = download_choice-Good c (read_word c.input) w
  choose-Good c listen w = w.none_started
  choose-Good c quit w = w.none_started
  choose-Good c other w = w

  chosen-Good :
      (c : Client) (r : Option (ℤ × Text)) → Waiting c → Good (chosen read_int read_word calls c r)
  unfolding chosen
  chosen-Good c none w = w.none_started
  chosen-Good c (some (n, rest)) w =
      choose-Good (record c { input = rest }) (choice_of n) (read_on c rest w)

  run_menu-HasNoDownload :
      (fuel : ℕ) (c : Client) → Waiting c → HasNoDownload (run_menu read_int read_word calls fuel c)
  unfolding run_menu
  run_menu-HasNoDownload zero c w = tt
  run_menu-HasNoDownload (suc fuel) c w =
      after (chosen read_int read_word calls c (read_int c.input))
        (chosen-Good c (read_int c.input) w) (run_menu-HasNoDownload fuel)
    where
      after :
          (r : Round)
          → Good r
          → ((c' : Client) → Waiting c' → HasNoDownload (run_menu read_int read_word calls fuel c'))
          → HasNoDownload
              (next_round read_int read_word calls (run_menu read_int read_word calls fuel) r)
      after (again c') good rest = rest c' good
      after (over e) good rest = good

  -- Whatever its options, its disk and its input, the client never gets to download a torrent with a
  -- hash other than 0: no download has been started when the menu is left, listens on its port or asks
  -- for ever. A torrent with the hash 0, if it finds one, starts a download and ends the program by
  -- `std::terminate` in the same round.
  pub client_main-HasNoDownload :
      (os : List GetoptResult) (fuel : ℕ) (d : Disk) (input : Text) (e : Ending)
      → client_main read_int read_word calls os fuel d input ≡ some e
      → HasNoDownload e
  unfolding client_main
  client_main-HasNoDownload os fuel d input e h = after (menu_options os) h
    where
      start : Client
      start = record { database = record { files = [] }; disk = d; input = input; started = [] }

      after :
          (o : Option ClientOptions)
          → started_with read_int read_word calls o fuel d input ≡ some e
          → HasNoDownload e
      after none h = absurd (ground arith)
      after (some o) h =
          let same : run_menu read_int read_word calls fuel start ≡ e = ground (arith, h) in
          subst HasNoDownload same
            (run_menu-HasNoDownload fuel start (record { blank = tt; none_started = refl }))
