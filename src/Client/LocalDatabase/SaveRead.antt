-- ===== src/Client/LocalDatabase/SaveRead.antt =====
-- The test database_save_read of client/tests/tests_main.cpp: a torrent file is written and read, a file
-- made of it is added to a database, and the database is saved and loaded twice.
use p2p_network.Base.{
  ℕ, ◌≡◌, ◌≢◌, ◌∙◌, refl, ap, Bool, true, false, Option, none, some, List, [], ◌∷◌, ◌++◌, arith,
  All, Text, text_eq, Outcome, Action, then_run, returns, throws, undefined, unfinished,
}
use p2p_network.Shared.Disk.{Disk, write_file}
use p2p_network.Shared.Torrent
use p2p_network.Shared.Torrent.{Torrent, new_torrent, of_file}
use p2p_network.Client.File.{File, copy_file, new_file}
use p2p_network.Client.LocalDatabase.{LocalDatabase, add_file, load_from_file, save_to_file}
use p2p_network.Client.LocalDatabase.Blank.{IsBlank, add_files, load_from_file-add_files}
use p2p_network.Client.LocalDatabase.Loaded.{load_from_file-IsBlank}

-- "test1.html"
abbrev test_name : Text
test_name = b't' ∷ b'e' ∷ b's' ∷ b't' ∷ b'1' ∷ b'.' ∷ b'h' ∷ b't' ∷ b'm' ∷ b'l' ∷ []

-- "torrent1.tor"
abbrev pub torrent_name : Text
torrent_name =
    b't' ∷ b'o' ∷ b'r' ∷ b'r' ∷ b'e' ∷ b'n' ∷ b't' ∷ b'1' ∷ b'.' ∷ b't' ∷ b'o' ∷ b'r' ∷ []

-- "saveTest", and with "Final" and "MoreFinal" behind it
abbrev pub save_name : Text
save_name = b's' ∷ b'a' ∷ b'v' ∷ b'e' ∷ b'T' ∷ b'e' ∷ b's' ∷ b't' ∷ []

abbrev final : Text
final = b'F' ∷ b'i' ∷ b'n' ∷ b'a' ∷ b'l' ∷ []

abbrev more : Text
more = b'M' ∷ b'o' ∷ b'r' ∷ b'e' ∷ []

-- What BOOST_CHECK is given; `f[0]` of an empty vector is undefined behaviour.
checked : List File → Disk → Action LocalDatabase (Bool × Disk)
checked [] d db = undefined
checked (f ∷ fs) d db = returns (text_eq f.torrent.file_name test_name, d) db

-- `saveToFile` and `loadFromFile` of one name.
saved_and_loaded : Disk → Text → Action LocalDatabase Disk
saved_and_loaded d name db =
    let d' = (save_to_file d name db).1 in
    then_run (load_from_file d' name db) (λ _ db'. returns d' db')

-- From the torrent that was read on.
with_torrent : Disk → Option Torrent → Outcome LocalDatabase (Bool × Disk)
unfolding checked saved_and_loaded
with_torrent d none = undefined
with_torrent d (some t) =
    then_run
      (saved_and_loaded d save_name (add_file (record { files = [] }) (new_file t test_name)))
      λ d2 db2.
        then_run (saved_and_loaded d2 (save_name ++ final) db2)
          λ d3 db3. checked db3.files (save_to_file d3 (save_name ++ (more ++ final)) db3).1 db3

unfoldable pub database_save_read : Disk → Outcome LocalDatabase (Bool × Disk)
unfolding with_torrent
database_save_read d =
    let d1 = (Torrent.save_to_file (new_torrent 101 909 test_name) torrent_name d).1 in
    with_torrent d1 (of_file d1 torrent_name)

-- The check does not hold.
abbrev Fails : Outcome LocalDatabase (Bool × Disk) → Type 0
Fails o = (d : Disk) (db : LocalDatabase) → o ≢ returns (true, d) db

-- A further step that fails after every outcome of a load fails after the load.
Fails-after :
    (o : Outcome LocalDatabase ℕ) (d : Disk)
    (next : Disk → LocalDatabase → Outcome LocalDatabase (Bool × Disk))
    → ((r : ℕ) (db : LocalDatabase) → o ≡ returns r db → Fails (next d db))
    → Fails (then_run (then_run o (λ _ db. returns d db)) next)
Fails-after (returns r s) d next h = h r s refl
Fails-after (throws s) d next h = λ d' db e. cc
Fails-after undefined d next h = λ d' db e. cc
Fails-after unfinished d next h = λ d' db e. cc

saved_and_loaded-Fails :
    (d : Disk) (name : Text) (db : LocalDatabase)
    (next : Disk → LocalDatabase → Outcome LocalDatabase (Bool × Disk))
    → All IsBlank db.files
    → ((d' : Disk) (db' : LocalDatabase) → All IsBlank db'.files → Fails (next d' db'))
    → Fails (then_run (saved_and_loaded d name db) next)
unfolding saved_and_loaded
saved_and_loaded-Fails d name db next h later =
    let d' = (save_to_file d name db).1 in
    Fails-after (load_from_file d' name db) d' next
      (λ r db' e. later d' db' (load_from_file-IsBlank d' name db db' r h e))

checked-Fails :
    (fs : List File) (d : Disk) (db : LocalDatabase) → All IsBlank fs → Fails (checked fs d db)
unfolding checked text_eq
checked-Fails [] d db h = λ d' db' e. cc
checked-Fails (f ∷ fs) d db h = λ d' db' e.
    let blank : text_eq f.torrent.file_name test_name ≡ false =
      rw (ap (λ x. x.torrent.file_name) h.0) refl in
    ground (arith, blank, e)

with_torrent-Fails : (d : Disk) (t : Option Torrent) → Fails (with_torrent d t)
unfolding with_torrent add_file copy_file
with_torrent-Fails d none = λ d' db' e. cc
with_torrent-Fails d (some t) =
    saved_and_loaded-Fails d save_name (add_file (record { files = [] }) (new_file t test_name)) _
      (refl, tt)
      (λ d2 db2 h2.
        saved_and_loaded-Fails d2 (save_name ++ final) db2 _ h2
          (λ d3 db3 h3. checked-Fails db3.files _ db3 h3))

writable-save_to_file :
    (d : Disk) (t : Torrent) (path name : Text)
    → (Torrent.save_to_file t path d).1.writable name ≡ d.writable name
unfolding Torrent.save_to_file write_file
writable-save_to_file d t path name = ground arith

with_torrent-undefined :
    (d : Disk) (t : Option Torrent) → d.writable save_name ≡ true → with_torrent d t ≡ undefined
unfolding with_torrent
with_torrent-undefined d none w = refl
with_torrent-undefined d (some t) w =
    let start : LocalDatabase = record { files = [] } in
    let files : List File = new_file t test_name ∷ [] in
    rw
      (load_from_file-add_files d save_name files (add_files start files) (omega arith)
        (omega arith) w)
      refl

-- The repository's test of saving and loading cannot pass on any disk: where its check is reached, it
-- does not hold. Where the list `saveTest` can be written, the check is not reached: the first load is
-- undefined behaviour, or already the read of the torrent file.
pub database_save_read-never :
    (d : Disk)
    → ((d' : Disk) (db : LocalDatabase) → database_save_read d ≢ returns (true, d') db)
      × (d.writable save_name ≡ true → database_save_read d ≡ undefined)
unfolding database_save_read
database_save_read-never d = (
  with_torrent-Fails _ _,
  λ w. with_torrent-undefined _ _ (writable-save_to_file d _ torrent_name save_name ∙ w),
)
