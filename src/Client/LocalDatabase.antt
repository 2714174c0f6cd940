-- ===== src/Client/LocalDatabase.antt =====
-- client/database/Database.h and Database.cpp: the client's own files, and the list of torrent files
-- that it keeps on disk. `none` for a file that is not there stands for the end of a function without
-- a return, which is undefined behaviour, as is the use of a number that a short read left unset.
mod Header
pub mod Blank
pub mod Loaded
pub mod RoundTrip
pub mod Saved
pub mod SaveRead
use p2p_network.Base.{
  ℕ, zero, suc, ◌%◌, ◌^◌, Bool, true, false, Option, none, some, List, [], ◌∷◌, ◌++◌, ltb, ◌==◌,
  if◌then◌else◌, length, take, drop, Text, le_bytes, le_value, Outcome, Action, returns, undefined,
}
use p2p_network.Base.Int.{ℤ, pos, negsuc}
use p2p_network.Shared.Disk.{Disk, write_file}
use p2p_network.Shared.Torrent.{Torrent, of_file, read_string}
use p2p_network.Client.File.{File, copy_file, new_file, get_id}

pub record LocalDatabase : Type 0 where
  pub files : List File

-- `addFile`: `std::make_shared<File>(file)` calls the copy constructor of `File`.
unfoldable pub add_file : LocalDatabase → File → LocalDatabase
add_file db file = record { files = db.files ++ copy_file file ∷ [] }

int_eq : ℤ → ℤ → Bool
int_eq (pos a) (pos b) = a == b
int_eq (negsuc a) (negsuc b) = a == b
int_eq _ _ = false

unfoldable pub get_file : List File → ℤ → Option File
unfolding int_eq
get_file [] id = none
get_file (f ∷ fs) id = if int_eq (get_id f) id then some f else get_file fs id

unfoldable pub is_file_in_database : List File → Torrent → Bool
is_file_in_database [] t = false
is_file_in_database (f ∷ fs) t =
    if f.torrent.hashed == t.hashed then true else is_file_in_database fs t

unfoldable pub add_loaded : Option Torrent → LocalDatabase → Option LocalDatabase
add_loaded none db = none
add_loaded (some t) db = some (add_file db (new_file t t.file_name))

load_found : Disk → Text → Option (List ℕ) → LocalDatabase → Option LocalDatabase
unfolding add_loaded
load_found d path none db = some db
load_found d path (some bytes) db = add_loaded (of_file d path) db

-- One entry of the list: a torrent file that is missing is skipped.
unfoldable pub load_entry : Disk → Text → LocalDatabase → Option LocalDatabase
unfolding load_found
load_entry d path db = load_found d path (d.files path) db

-- The loop of `loadFromFile`, with `n` rounds left and the bytes that are not read yet.
unfoldable pub load_entries : Disk → ℕ → List ℕ → LocalDatabase → Option LocalDatabase
load_entries d zero bytes db = some db
load_entries d (suc n) bytes db =
    if ltb (length bytes) 4
    then none
    else let name_size = le_value (take 4 bytes) in
      elim (load_entry d (read_string name_size (drop 4 bytes)) db) [
        | none ↦ none
        | some db' ↦ load_entries d n (drop name_size (drop 4 bytes)) db'
      ]

pub loaded : Option LocalDatabase → Outcome LocalDatabase ℕ
loaded none = undefined
loaded (some db) = returns 0 db

pub load_bytes : Disk → List ℕ → Outcome LocalDatabase ℕ
unfolding load_entries loaded
load_bytes d bytes =
    if ltb (length bytes) 2
    then undefined
    else loaded (load_entries d (le_value (take 2 bytes)) (drop 2 bytes) (record { files = [] }))

load_list : Disk → Option (List ℕ) → Action LocalDatabase ℕ
unfolding load_bytes
load_list d none db = returns 1 db
load_list d (some bytes) db = load_bytes d bytes

-- `loadFromFile`: 1 for a list that is not there, and 0 otherwise.
unfoldable pub load_from_file : Disk → Text → Action LocalDatabase ℕ
unfolding load_list
load_from_file d name = load_list d (d.files name)

-- The entries that `saveToFile` writes: a file whose torrent has no path is left out.
unfoldable pub entry_bytes : List File → List ℕ
entry_bytes [] = []
entry_bytes (f ∷ fs) =
    if f.torrent.has_path
    then le_bytes 4 name_size ++ (take name_size f.torrent.current_path ++ entry_bytes fs)
    else entry_bytes fs
  where
    name_size : ℕ
    name_size = length f.torrent.current_path % 2 ^ 32

-- The count is that of all files, in 16 bits.
unfoldable pub list_bytes : List File → List ℕ
unfolding entry_bytes
list_bytes fs = le_bytes 2 (length fs % 2 ^ 16) ++ entry_bytes fs

-- `saveToFile`: its result, and the disk.
unfoldable pub save_to_file : Disk → Text → LocalDatabase → ℕ × Disk
unfolding list_bytes
save_to_file d name db =
    if d.writable name then (0, write_file d name (list_bytes db.files)) else (1, d)
