-- ===== src/Shared/Disk.antt =====
-- The file system as the program sees it through `stat`, `std::ifstream` and `std::ofstream`: the
-- bytes of each file that exists, and the paths at which a file can be created or overwritten.
-- A file that `stat` finds can be read.
use p2p_network.Base.{
  ℕ, ◌≡◌, Bool, true, List, Option, some, if◌then◌else◌, Text, text_eq, text_eq_refl,
}

pub record Disk : Type 0 where
  pub files : Text → Option (List ℕ)
  pub writable : Text → Bool

-- An `std::ofstream` opened on `path` and filled with `bytes`; one that does not open writes nothing.
unfoldable pub write_file : Disk → Text → List ℕ → Disk
write_file d path bytes =
    if d.writable path
    then record d { files = λ q. if text_eq q path then some bytes else d.files q }
    else d

pub write_file-read :
    (d : Disk) (path : Text) (bytes : List ℕ)
    → d.writable path ≡ true
    → (write_file d path bytes).files path ≡ some bytes
unfolding write_file
write_file-read d path bytes w = rw (w, text_eq_refl path)
