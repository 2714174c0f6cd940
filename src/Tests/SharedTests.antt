-- ===== src/Tests/SharedTests.antt =====
-- shared/Torrent.cpp at concrete torrents.
use p2p_network.Base.{
  ℕ, List, All, subst, le_value, ◌≡◌, refl, true, none, some, [], ◌∷◌, arith, Text, le_bytes,
}
use p2p_network.Shared.Disk.{Disk}
use p2p_network.Shared.Torrent.{
  Torrent, new_torrent, set_path, save_to_file, of_file, to_string, torrent_bytes, read_string,
  read_torrent,
}
use p2p_network.Shared.Torrent.RoundTrip.{of_file-save_to_file}
use p2p_network.Shared.Torrent.Fields.{IsByte, Fits, save_to_file-of_file}

abbrev page : Torrent
page = new_torrent 101 909 (b'p' ∷ b'.' ∷ b'h' ∷ [])

abbrev torrent_path : Text
torrent_path = b't' ∷ b'1' ∷ []

abbrev other_path : Text
other_path = b't' ∷ b'2' ∷ []

abbrev empty_disk : Disk
empty_disk = record { files = λ _. none; writable = λ _. true }

-- A torrent file with a name of one byte, which says that it has two.
abbrev cut_file : List ℕ
cut_file = 5 ∷ 0 ∷ 0 ∷ 0 ∷ 0 ∷ 0 ∷ 0 ∷ 0 ∷ 64 ∷ 31 ∷ 0 ∷ 0 ∷ 2 ∷ 0 ∷ 0 ∷ 0 ∷ 97 ∷ []

abbrev cut_disk : Disk
cut_disk = record { files = λ _. some cut_file; writable = λ _. true }

cut_torrent :
    of_file cut_disk torrent_path ≡ some (set_path (new_torrent 5 8000 (97 ∷ 0 ∷ [])) torrent_path)
unfolding of_file le_value read_string read_torrent
cut_torrent = refl

cut_bytes : (bs : List ℕ) → cut_disk.files torrent_path ≡ some bs → All IsByte bs
cut_bytes bs e = let same : cut_file ≡ bs = cc in subst (λ x. All IsByte x) same (omega arith)

save_to_file-of_file_example :
    Fits (set_path (new_torrent 5 8000 (97 ∷ 0 ∷ [])) torrent_path)
    × (of_file
          (save_to_file
            (set_path (new_torrent 5 8000 (97 ∷ 0 ∷ [])) torrent_path)
            other_path
            cut_disk).1
          other_path
        ≡ some (set_path (set_path (new_torrent 5 8000 (97 ∷ 0 ∷ [])) torrent_path) other_path))
save_to_file-of_file_example =
    save_to_file-of_file cut_disk torrent_path other_path
      (set_path (new_torrent 5 8000 (97 ∷ 0 ∷ [])) torrent_path) cut_bytes cut_torrent refl

page_bytes :
    torrent_bytes page
    ≡ 101 ∷ 0 ∷ 0 ∷ 0 ∷ 0 ∷ 0 ∷ 0 ∷ 0 ∷ 141 ∷ 3 ∷ 0 ∷ 0 ∷ 3 ∷ 0 ∷ 0 ∷ 0 ∷ 112 ∷ 46 ∷ 104 ∷ []
unfolding torrent_bytes le_bytes
page_bytes = refl

salted_name : to_string 1203 ≡ b'1' ∷ b'2' ∷ b'0' ∷ b'3' ∷ []
unfolding to_string
salted_name = refl

of_file-save_to_file_example :
    of_file (save_to_file page torrent_path empty_disk).1 torrent_path
    ≡ some (set_path page torrent_path)
of_file-save_to_file_example =
    (of_file-save_to_file page torrent_path empty_disk (omega arith) (omega arith) (omega arith)
      refl).0
