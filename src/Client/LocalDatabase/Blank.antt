-- ===== src/Client/LocalDatabase/Blank.antt =====
-- client/database/Database.cpp and client/file/File.cpp: what becomes of a file in the database, since
-- the copy constructor of `File` copies nothing.
use p2p_network.Base.{
  ℕ, zero, suc, ◌+◌, length-append, ◌^◌, ◌<◌, ◌≡◌, refl, ◌∙◌, true, ◌||◌, none, List, [], ◌∷◌, ◌++◌,
  arith, ◌==◌, length, All, All-append, Text, undefined,
}
use p2p_network.Shared.Disk.{Disk}
use p2p_network.Shared.Torrent.{Torrent}
use p2p_network.Client.File.{File, blank_file, copy_file}
use p2p_network.Client.LocalDatabase.{
  LocalDatabase, add_file, is_file_in_database, load_from_file, save_to_file, entry_bytes,
  load_entries, loaded,
}
use p2p_network.Client.LocalDatabase.Header.{load-save}

abbrev pub IsBlank : File → Type 0
IsBlank f = f ≡ blank_file

is_file_in_database-append :
    (fs : List File) (f : File) (t : Torrent)
    → is_file_in_database (fs ++ f ∷ []) t
      ≡ (is_file_in_database fs t || f.torrent.hashed == t.hashed)
unfolding is_file_in_database
is_file_in_database-append [] f t = ground arith
is_file_in_database-append (g ∷ fs) f t = ground (arith, is_file_in_database-append fs f t)

-- Whatever file is added, the database has one file more, at its end, and that file is blank: a
-- torrent is found afterwards only if it was found before or has the hash 0.
pub add_file-Blank :
    (db : LocalDatabase) (f : File) (t : Torrent)
    → ((add_file db f).files ≡ db.files ++ blank_file ∷ [])
      × (is_file_in_database (add_file db f).files t
          ≡ (is_file_in_database db.files t || 0 == t.hashed))
unfolding add_file copy_file
add_file-Blank db f t = (refl, is_file_in_database-append db.files blank_file t)

-- The files that `addFile` made, one after another.
abbrev pub add_files : LocalDatabase → List File → LocalDatabase
add_files db [] = db
add_files db (f ∷ fs) = add_files (add_file db f) fs

add_files-IsBlank :
    (db : LocalDatabase) (fs : List File)
    → All IsBlank db.files
    → All IsBlank (add_files db fs).files
unfolding add_file copy_file
add_files-IsBlank db [] h = h
add_files-IsBlank db (f ∷ fs) h =
    add_files-IsBlank (add_file db f) fs
      (All-append IsBlank db.files (blank_file ∷ []) h (refl, tt))

entry_bytes-blank : (fs : List File) → All IsBlank fs → entry_bytes fs ≡ []
unfolding entry_bytes
entry_bytes-blank [] h = refl
entry_bytes-blank (f ∷ fs) h = rw (h.0) (entry_bytes-blank fs h.1)

length-add_files :
    (db : LocalDatabase) (fs : List File)
    → length (add_files db fs).files ≡ length db.files + length fs
unfolding add_file copy_file
length-add_files db [] = omega arith
length-add_files db (f ∷ fs) =
    omega (arith, length-add_files (add_file db f) fs, length-append db.files (blank_file ∷ []))

first_entry_missing :
    (d : Disk) (n : ℕ) (db : LocalDatabase) → 0 < n → load_entries d n [] db ≡ none
unfolding load_entries
first_entry_missing d zero db h = absurd (omega arith)
first_entry_missing d (suc n) db h = refl

-- The list that is saved after one or more files were added to an empty database has their count
-- and no entries: to load it is undefined behaviour, whatever files they were and whatever the
-- database that it is loaded into.
pub load_from_file-add_files :
    (d : Disk) (name : Text) (fs : List File) (other : LocalDatabase)
    → 0 < length fs
    → length fs < 2 ^ 16
    → d.writable name ≡ true
    → load_from_file (save_to_file d name (add_files (record { files = [] }) fs)).1 name other
      ≡ undefined
unfolding loaded
load_from_file-add_files d name fs other some_file few w =
    let start : LocalDatabase = record { files = [] } in
    let db = add_files start fs in
    let len = length-add_files start fs in
    load-save d name db other (omega (arith, len)) w
    ∙ rw (
      entry_bytes-blank db.files (add_files-IsBlank start fs tt),
      first_entry_missing (save_to_file d name db).1 (length db.files) start (omega (arith, len)),
    )
