-- ===== src/Shared/Torrent.antt =====
-- shared/Torrent.h and shared/Torrent.cpp. `std::hash<std::string>` is the argument `hash`.
pub mod RoundTrip
pub mod Fields
use p2p_network.Base.{
  ℕ, zero, suc, ◌+◌, ◌-◌, ◌/◌, ◌%◌, ◌^◌, Bool, true, false, ◌&&◌, Option, none, some, List, [], ◌∷◌,
  ◌++◌, ltb, ◌==◌, if◌then◌else◌, length, take, drop, replicate, Text, text_eq, le_bytes, le_value,
}
use p2p_network.Shared.Message.{TorrentMessage}
use p2p_network.Shared.Disk.{Disk, write_file}

pub record Torrent : Type 0 where
  pub hashed : ℕ  -- Hash, a uint64_t
  pub size : ℕ  -- uint32_t
  pub file_name : Text
  pub has_path : Bool
  pub current_path : Text

-- `Torrent()`
abbrev pub empty_torrent : Torrent
empty_torrent = record { hashed = 0; size = 0; file_name = []; has_path = false; current_path = [] }

-- `Torrent(Hash, uint32_t, std::string)`
abbrev pub new_torrent : ℕ → ℕ → Text → Torrent
new_torrent hashed size file_name = record empty_torrent {
  hashed = hashed;
  size = size;
  file_name = file_name;
}

-- `Torrent(const TorrentMessage &)`
abbrev pub of_msg : TorrentMessage → Torrent
of_msg msg = record empty_torrent {
  hashed = msg.hashed;
  size = msg.size;
  file_name = msg.file_name;
}

abbrev pub to_msg : Torrent → TorrentMessage
to_msg t = record { hashed = t.hashed; size = t.size; file_name = t.file_name }

-- `std::to_string` of a `uint32_t`, which has ten digits at most.
decimal : ℕ → ℕ → Text
decimal zero n = []
decimal (suc digits) n =
    (let front = decimal digits (n / 10) in if ltb n 10 then [] else front) ++ (48 + n % 10) ∷ []

unfoldable pub to_string : ℕ → Text
unfolding decimal
to_string n = decimal 10 n

unfoldable pub gen_default_hash : (Text → ℕ) → Torrent → Torrent
gen_default_hash hash t = record t { hashed = hash t.file_name }

-- `append` changes `fileName` itself: the salts of all rounds stay in the name.
unfoldable pub gen_salted_hash : (Text → ℕ) → Torrent → ℕ → Torrent
gen_salted_hash hash t salt = record t { hashed = hash salted; file_name = salted }
  where
    salted : Text
    salted = t.file_name ++ to_string salt

unfoldable pub set_path : Torrent → Text → Torrent
set_path t path = record t { has_path = true; current_path = path }

-- The bytes that `saveToFile` writes.
unfoldable pub torrent_bytes : Torrent → List ℕ
torrent_bytes t =
    let name_size = length t.file_name % 2 ^ 32 in
    le_bytes 8 t.hashed
    ++ (le_bytes 4 t.size ++ (le_bytes 4 name_size ++ take name_size t.file_name))

-- `saveToFile`: the torrent afterwards, whose path is now its `fileName`, and the disk.
unfoldable pub save_to_file : Torrent → Text → Disk → Torrent × Disk
save_to_file t path d = (set_path t t.file_name, write_file d path (torrent_bytes t))

-- `std::string::resize` to `n`, then a read of at most `n` bytes into it.
unfoldable pub read_string : ℕ → List ℕ → Text
read_string n bytes = let read = take n bytes in read ++ replicate (n - length read) 0

-- The reads of `Torrent(std::string)`. A file with fewer than 16 bytes leaves `nameSize` without a
-- value, and the constructor goes on to use it: undefined behaviour, `none`.
unfoldable pub read_torrent : Text → List ℕ → Option Torrent
read_torrent path bytes =
    if ltb (length bytes) 16
    then none
    else some (set_path (new_torrent hash size (read_string name_size (drop 16 bytes))) path)
  where
    hash : ℕ
    hash = le_value (take 8 bytes)

    size : ℕ
    size = le_value (take 4 (drop 8 bytes))

    name_size : ℕ
    name_size = le_value (take 4 (drop 12 bytes))

read_found : Text → Option (List ℕ) → Option Torrent
read_found path none = some (record empty_torrent { size = 2 ^ 32 - 1 })
read_found path (some bytes) = read_torrent path bytes

-- `Torrent(std::string)`. Of a file that is not there it makes a torrent of size -1.
unfoldable pub of_file : Disk → Text → Option Torrent
unfolding read_found
of_file d path = read_found path (d.files path)

-- `operator==` leaves the paths out.
unfoldable pub torrent_eq : Torrent → Torrent → Bool
torrent_eq a b = a.hashed == b.hashed && a.size == b.size && text_eq a.file_name b.file_name
