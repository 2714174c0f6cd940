-- ===== src/Client/LocalDatabase/Saved.antt =====
-- client/database/Database.cpp: what `loadFromFile` makes of any list that `saveToFile` wrote.
use p2p_network.Base.{
  ℕ, zero, suc, ◌%◌, ◌^◌, ◌<◌, ◌≡◌, refl, ◌∙◌, sym, ap, true, false, Option, none, some, List, [],
  ◌∷◌, arith, ltb, if◌then◌else◌, take, length, All, Text, Bool-cases, inl, inr,
}
use p2p_network.Shared.Disk.{Disk, write_file, write_file-read}
use p2p_network.Client.File.{File}
use p2p_network.Client.LocalDatabase.{
  LocalDatabase, loaded, load_entry, load_entries, load_from_file, entry_bytes, list_bytes,
  save_to_file,
}
use p2p_network.Client.LocalDatabase.Header.{load_bytes-count}
use p2p_network.Client.LocalDatabase.RoundTrip.{
  load_paths, path_of, load_entries-entry, entry_bytes-HasPath,
}

-- The paths that `saveToFile` writes.
abbrev pub saved_paths : List File → List Text
saved_paths [] = []
saved_paths (f ∷ fs) = if f.torrent.has_path then path_of f ∷ saved_paths fs else saved_paths fs

abbrev pub IsShortPath : File → Type 0
IsShortPath f = length (path_of f) < 2 ^ 32

-- `n` torrent files from these paths, if there are so many.
abbrev pub load_first : Disk → ℕ → List Text → LocalDatabase → Option LocalDatabase
load_first d n paths db = if ltb (length paths) n then none else load_paths d (take n paths) db

load_first-entry :
    (d : Disk) (n : ℕ) (bytes : List ℕ) (path : Text) (paths : List Text) (db : LocalDatabase)
    (o : Option LocalDatabase)
    → load_entry d path db ≡ o
    → ((db : LocalDatabase) → load_entries d n bytes db ≡ load_first d n paths db)
    → ◌≡◌ {A = Option LocalDatabase}
        (elim o [ none ↦ none | some db' ↦ load_entries d n bytes db' ])
        (load_first d (suc n) (path ∷ paths) db)
load_first-entry d n bytes path paths db none e h = ground (arith, e)
load_first-entry d n bytes path paths db (some db') e h = ground (arith, e, h db')

load_entries-none :
    (d : Disk) (n : ℕ) (db : LocalDatabase) → load_entries d n [] db ≡ load_first d n [] db
unfolding load_entries
load_entries-none d zero db = ground arith
load_entries-none d (suc n) db = ground arith

load_entries-zero :
    (d : Disk) (bytes : List ℕ) (paths : List Text) (db : LocalDatabase)
    → load_entries d 0 bytes db ≡ load_first d 0 paths db
unfolding load_entries
load_entries-zero d bytes paths db = ground arith

-- A file whose torrent has no path has no entry.
no_entry :
    (f : File) (fs : List File)
    → f.torrent.has_path ≡ false
    → (entry_bytes (f ∷ fs) ≡ entry_bytes fs) × (saved_paths (f ∷ fs) ≡ saved_paths fs)
unfolding entry_bytes
no_entry f fs without = (ground (arith, without), ground (arith, without))

load_entries-saved :
    (d : Disk) (n : ℕ) (fs : List File) (db : LocalDatabase)
    → All IsShortPath fs
    → load_entries d n (entry_bytes fs) db ≡ load_first d n (saved_paths fs) db
load_entries-saved d n [] db h = unfold entry_bytes in load_entries-none d n db
load_entries-saved d zero (f ∷ fs) db h =
    load_entries-zero d (entry_bytes (f ∷ fs)) (saved_paths (f ∷ fs)) db
load_entries-saved d (suc n) (f ∷ fs) db h = elim (Bool-cases f.torrent.has_path) [
  | inl has ↦
      let listed : path_of f ∷ saved_paths fs ≡ saved_paths (f ∷ fs) = ground (arith, has) in
      ap (λ bytes. load_entries d (suc n) bytes db) (entry_bytes-HasPath f fs (has, h.0))
      ∙ load_entries-entry d n (path_of f) (entry_bytes fs) db h.0
      ∙ load_first-entry d n (entry_bytes fs) (path_of f) (saved_paths fs) db
          (load_entry d (path_of f) db) refl (λ db'. load_entries-saved d n fs db' h.1)
      ∙ ap (λ paths. load_first d (suc n) paths db) listed
  | inr without ↦
      let (bytes, paths) = no_entry f fs without in
      ap (λ bs. load_entries d (suc n) bs db) bytes
      ∙ load_entries-saved d (suc n) fs db h.1
      ∙ sym (ap (λ ps. load_first d (suc n) ps db) paths)
]

load_from_file-list_bytes :
    (d : Disk) (name : Text) (fs : List File) (other : LocalDatabase)
    → All IsShortPath fs
    → d.files name ≡ some (list_bytes fs)
    → load_from_file d name other
      ≡ loaded (load_first d (length fs % 2 ^ 16) (saved_paths fs) (record { files = [] }))
unfolding load_from_file list_bytes
load_from_file-list_bytes d name fs other short there =
    rw there (load_bytes-count d (length fs % 2 ^ 16) (entry_bytes fs) (omega arith))
    ∙ ap loaded (load_entries-saved d (length fs % 2 ^ 16) fs (record { files = [] }) short)

-- A database whose paths are shorter than 2^32 bytes, saved where the disk can be written and then
-- loaded: the count in the list is that of all files, in 16 bits, and its entries are those of the files
-- whose torrents have a path. As many torrent files as the count says are loaded, in the order of the
-- paths, into an empty database, whatever the database held that the list is loaded into; if there are
-- fewer paths than that, it is undefined behaviour.
pub load_from_file-save_to_file_count :
    (d : Disk) (name : Text) (db other : LocalDatabase)
    → All IsShortPath db.files
    → d.writable name ≡ true
    → let after = (save_to_file d name db).1 in
      load_from_file after name other
      ≡ loaded (
          load_first after
            (length db.files % 2 ^ 16)
            (saved_paths db.files)
            (record { files = [] }))
unfolding save_to_file
load_from_file-save_to_file_count d name db other short w = rw w (
    load_from_file-list_bytes (write_file d name (list_bytes db.files)) name db.files other short
      (write_file-read d name (list_bytes db.files) w))
