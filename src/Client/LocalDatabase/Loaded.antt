-- ===== src/Client/LocalDatabase/Loaded.antt =====
-- client/database/Database.cpp and client/file/File.cpp: what `loadFromFile` leaves in the database.
use p2p_network.Base.{
  ℕ, zero, suc, ◌≡◌, refl, subst, true, none, some, List, [], ◌∷◌, arith, ◌==◌, All, All-append,
  Option, Text, returns, Option-cases, inl, inr, take, drop, ltb, length, le_value, Bool-cases,
  Bool, false, if◌then◌else◌, ap,
}
use p2p_network.Shared.Disk.{Disk}
use p2p_network.Shared.Torrent.{Torrent, of_file, read_string}
use p2p_network.Client.File.{File, blank_file, copy_file, new_file}
use p2p_network.Client.LocalDatabase.{
  LocalDatabase, add_file, add_loaded, is_file_in_database, load_entry, load_entries,
  load_from_file, load_found, loaded, load_bytes,
}
use p2p_network.Client.LocalDatabase.Blank.{IsBlank}

add_file-IsBlank :
    (db : LocalDatabase) (f : File) → All IsBlank db.files → All IsBlank (add_file db f).files
unfolding add_file copy_file
add_file-IsBlank db f h = All-append IsBlank db.files (blank_file ∷ []) h (refl, tt)

-- Every database that a part of a load may end with has blank files alone.
abbrev AllBlank : Option LocalDatabase → Type 0
AllBlank none = Unit
AllBlank (some db) = All IsBlank db.files

add_loaded-AllBlank :
    (t : Option Torrent) (db : LocalDatabase) → All IsBlank db.files → AllBlank (add_loaded t db)
unfolding add_loaded
add_loaded-AllBlank none db h = tt
add_loaded-AllBlank (some t) db h = add_file-IsBlank db (new_file t t.file_name) h

load_found-AllBlank :
    (d : Disk) (path : Text) (bytes : Option (List ℕ)) (db : LocalDatabase)
    → All IsBlank db.files
    → AllBlank (load_found d path bytes db)
unfolding load_found
load_found-AllBlank d path none db h = h
load_found-AllBlank d path (some bytes) db h = add_loaded-AllBlank (of_file d path) db h

AllBlank-if :
    (b : Bool) (x y : Option LocalDatabase)
    → AllBlank x
    → AllBlank y
    → AllBlank (if b then x else y)
AllBlank-if true x y hx hy = hx
AllBlank-if false x y hx hy = hy

AllBlank-next :
    (o : Option LocalDatabase) (next : LocalDatabase → Option LocalDatabase)
    → AllBlank o
    → ((db : LocalDatabase) → All IsBlank db.files → AllBlank (next db))
    → AllBlank (elim o [ none ↦ none | some db ↦ next db ])
AllBlank-next none next h later = tt
AllBlank-next (some db) next h later = later db h

load_entries-AllBlank :
    (d : Disk) (n : ℕ) (bytes : List ℕ) (db : LocalDatabase)
    → All IsBlank db.files
    → AllBlank (load_entries d n bytes db)
unfolding load_entries load_entry
load_entries-AllBlank d zero bytes db h = h
load_entries-AllBlank d (suc n) bytes db h =
    let path : Text = read_string (le_value (take 4 bytes)) (drop 4 bytes) in
    AllBlank-if (ltb (length bytes) 4) none _ tt (
      AllBlank-next (load_found d path (d.files path) db) _
        (load_found-AllBlank d path (d.files path) db h)
        (load_entries-AllBlank d n (drop (le_value (take 4 bytes)) (drop 4 bytes))))

loaded-IsBlank :
    (o : Option LocalDatabase) (r : ℕ) (db : LocalDatabase)
    → AllBlank o
    → loaded o ≡ returns r db
    → All IsBlank db.files
unfolding loaded
loaded-IsBlank none r db h e = absurd (ground arith)
loaded-IsBlank (some db') r db h e =
    let same : db' ≡ db = ground (arith, e) in subst (λ x. All IsBlank x.files) same h

load_bytes-IsBlank :
    (d : Disk) (bytes : List ℕ) (r : ℕ) (db : LocalDatabase)
    → load_bytes d bytes ≡ returns r db
    → All IsBlank db.files
unfolding load_bytes
load_bytes-IsBlank d bytes r db e = elim (Bool-cases (ltb (length bytes) 2)) [
  | inl short ↦ absurd (ground (arith, short, e))
  | inr enough ↦
      let start : LocalDatabase = record { files = [] } in
      loaded-IsBlank (load_entries d (le_value (take 2 bytes)) (drop 2 bytes) start) r db
        (load_entries-AllBlank d (le_value (take 2 bytes)) (drop 2 bytes) start tt)
        (ground (arith, enough, e))
]

-- A list that is loaded, or that is missing, leaves blank files alone in a database that had none but
-- such.
pub load_from_file-IsBlank :
    (d : Disk) (name : Text) (db db' : LocalDatabase) (r : ℕ)
    → All IsBlank db.files
    → load_from_file d name db ≡ returns r db'
    → All IsBlank db'.files
unfolding load_from_file
load_from_file-IsBlank d name db db' r h e = elim (Option-cases (d.files name)) [
  | inl missing ↦
      let same : db ≡ db' = ground (arith, missing, e) in subst (λ x. All IsBlank x.files) same h
  | inr (bytes, there) ↦ load_bytes-IsBlank d bytes r db' (ground (arith, there, e))
]

-- Among blank files only a torrent with the hash 0 is found.
pub is_file_in_database-IsBlank :
    (fs : List File) (t : Torrent) → All IsBlank fs → is_file_in_database fs t ≡ true → t.hashed ≡ 0
unfolding is_file_in_database
is_file_in_database-IsBlank [] t h e = absurd (ground arith)
is_file_in_database-IsBlank (f ∷ fs) t h e = elim (Bool-cases (0 == t.hashed)) [
  | inl zero_hash ↦ ground (arith, zero_hash)
  | inr other ↦ is_file_in_database-IsBlank fs t h.1 (
      let hash : f.torrent.hashed ≡ 0 = ap (λ x. x.torrent.hashed) h.0 in
      ground (arith, hash, other, e))
]
