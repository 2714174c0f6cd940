-- ===== src/Client/LocalDatabase/RoundTrip.antt =====
-- client/database/Database.cpp: the list of torrent files, saved and loaded.
use native.Mathlib.Nat.{mod-eq_of_lt}
use p2p_network.Base.{
  ℕ, suc, ◌-◌, append-nil, ◌^◌, ◌≤◌, ◌<◌, ◌≡◌, refl, sym, ap, ◌∙◌, true, Option, none, some, List,
  [], ◌∷◌, ◌++◌, map, arith, length, length-append, take-append, drop-append, take-all, All, Text,
  le_bytes, length-le_bytes, le_value-le_bytes,
}
use p2p_network.Shared.Disk.{Disk}
use p2p_network.Shared.Torrent.{read_string}
use p2p_network.Client.File.{File}
use p2p_network.Client.LocalDatabase.{
  LocalDatabase, loaded, load_entry, load_entries, load_from_file, entry_bytes, save_to_file,
}
use p2p_network.Client.LocalDatabase.Header.{load-save}

-- The torrent files at these paths, one after another.
abbrev pub load_paths : Disk → List Text → LocalDatabase → Option LocalDatabase
load_paths d [] db = some db
load_paths d (p ∷ ps) db = elim (load_entry d p db) [ none ↦ none | some db' ↦ load_paths d ps db' ]

-- The torrent of the file knows where it lies on disk.
abbrev pub HasPath : File → Type 0
HasPath f = (f.torrent.has_path ≡ true) × (length f.torrent.current_path < 2 ^ 32)

abbrev pub path_of : File → Text
path_of f = f.torrent.current_path

read_string-append : (s rest : List ℕ) → read_string (length s) (s ++ rest) ≡ s
unfolding read_string
read_string-append s rest =
    rw (take-append s rest (length s) refl)
      (rw (let e : length s - length s ≡ 0 = omega arith in e) (append-nil s))

pub load_entries-entry :
    (d : Disk) (n : ℕ) (path : Text) (rest : List ℕ) (db : LocalDatabase)
    → length path < 2 ^ 32
    → load_entries d (suc n) (le_bytes 4 (length path) ++ (path ++ rest)) db
      ≡ elim (load_entry d path db) [ none ↦ none | some db' ↦ load_entries d n rest db' ]
unfolding load_entries
load_entries-entry d n path rest db h =
    let size = le_bytes 4 (length path) in
    ground (
      arith,
      let long : 4 ≤ length (size ++ (path ++ rest)) =
            omega (arith, length-append size (path ++ rest), length-le_bytes 4 (length path)) in
          long,
      take-append size (path ++ rest) 4 (sym (length-le_bytes 4 (length path))),
      drop-append size (path ++ rest) 4 (sym (length-le_bytes 4 (length path))),
      le_value-le_bytes 4 (length path) (omega arith),
      read_string-append path rest,
      drop-append path rest (length path) refl,
    )

pub entry_bytes-HasPath :
    (f : File) (fs : List File)
    → HasPath f
    → entry_bytes (f ∷ fs) ≡ le_bytes 4 (length (path_of f)) ++ (path_of f ++ entry_bytes fs)
unfolding entry_bytes
entry_bytes-HasPath f fs h =
    ground (arith, mod-eq_of_lt h.1, take-all (path_of f) (length (path_of f)) (omega arith))

-- After an entry that was loaded, the same follows.
after_entry :
    (d : Disk) (n : ℕ) (bytes : List ℕ) (paths : List Text) (o : Option LocalDatabase)
    → ((db : LocalDatabase) → load_entries d n bytes db ≡ load_paths d paths db)
    → ◌≡◌ {A = Option LocalDatabase}
        (elim o [ none ↦ none | some db ↦ load_entries d n bytes db ])
        (elim o [ none ↦ none | some db ↦ load_paths d paths db ])
after_entry d n bytes paths none h = refl
after_entry d n bytes paths (some db) h = h db

load_entries-entry_bytes :
    (d : Disk) (fs : List File) (db : LocalDatabase)
    → All HasPath fs
    → load_entries d (length fs) (entry_bytes fs) db ≡ load_paths d (map path_of fs) db
load_entries-entry_bytes d [] db h = unfold load_entries in refl
load_entries-entry_bytes d (f ∷ fs) db h =
    ap (λ bytes. load_entries d (length (f ∷ fs)) bytes db) (entry_bytes-HasPath f fs h.0)
    ∙ load_entries-entry d (length fs) (path_of f) (entry_bytes fs) db h.0.1
    ∙ after_entry d (length fs) (entry_bytes fs) (map path_of fs) (load_entry d (path_of f) db)
        (λ db'. load_entries-entry_bytes d fs db' h.1)

-- A database of fewer than 2^16 files, each with the path of its torrent file, saved where the disk
-- can be written and then loaded: the torrent files at those paths are loaded in order into an empty
-- database, whatever the database held that the list is loaded into.
pub load_from_file-save_to_file :
    (d : Disk) (name : Text) (db other : LocalDatabase)
    → All HasPath db.files
    → length db.files < 2 ^ 16
    → d.writable name ≡ true
    → load_from_file (save_to_file d name db).1 name other
      ≡ loaded
          (load_paths (save_to_file d name db).1 (map path_of db.files) (record { files = [] }))
load_from_file-save_to_file d name db other h few w =
    load-save d name db other few w
    ∙ ap loaded
        (load_entries-entry_bytes (save_to_file d name db).1 db.files (record { files = [] }) h)
