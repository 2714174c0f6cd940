-- ===== src/Client/LocalDatabase/Header.antt =====
-- client/database/Database.cpp: `loadFromFile` on a list that `saveToFile` wrote, up to its entries.
use native.Mathlib.Nat.{mod-eq_of_lt}
use p2p_network.Base.{
  ℕ, ◌^◌, ◌≤◌, ◌<◌, ◌≡◌, sym, true, List, [], ◌++◌, arith, length, length-append, take-append,
  drop-append, Text, le_bytes, length-le_bytes, le_value-le_bytes,
}
use p2p_network.Shared.Disk.{Disk, write_file-read}
use p2p_network.Client.LocalDatabase.{
  LocalDatabase, loaded, load_bytes, load_entries, load_from_file, list_bytes, entry_bytes,
  save_to_file,
}

pub load_bytes-count :
    (d : Disk) (n : ℕ) (entries : List ℕ)
    → n < 2 ^ 16
    → load_bytes d (le_bytes 2 n ++ entries)
      ≡ loaded (load_entries d n entries (record { files = [] }))
unfolding load_bytes
load_bytes-count d n entries h = ground (
  arith,
  let long : 2 ≤ length (le_bytes 2 n ++ entries) =
        omega (arith, length-append (le_bytes 2 n) entries, length-le_bytes 2 n) in
      long,
  take-append (le_bytes 2 n) entries 2 (sym (length-le_bytes 2 n)),
  drop-append (le_bytes 2 n) entries 2 (sym (length-le_bytes 2 n)),
  le_value-le_bytes 2 n (omega arith),
)

pub load-save :
    (d : Disk) (name : Text) (db other : LocalDatabase)
    → length db.files < 2 ^ 16
    → d.writable name ≡ true
    → load_from_file (save_to_file d name db).1 name other
      ≡ loaded (
          load_entries
            (save_to_file d name db).1
            (length db.files)
            (entry_bytes db.files)
            (record { files = [] }))
unfolding load_from_file save_to_file
load-save d name db other few w =
    rw (w, write_file-read d name (list_bytes db.files) w)
      (unfold list_bytes in
        rw (mod-eq_of_lt few) (load_bytes-count _ (length db.files) (entry_bytes db.files) few))
