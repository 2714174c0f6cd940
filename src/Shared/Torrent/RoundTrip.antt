-- ===== src/Shared/Torrent/RoundTrip.antt =====
-- shared/Torrent.cpp: a torrent file that `saveToFile` wrote is read back by the constructor, and
-- what the constructor makes of a file that is missing or cut short.
use native.Mathlib.Nat.{mod-eq_of_lt}
use p2p_network.Base.{
  ℕ, ◌+◌, ◌-◌, ◌^◌, ◌≤◌, ◌<◌, ◌≡◌, ◌↔◌, inl, inr, refl, sym, ◌∙◌, ap, true, Option-cases, some,
  none, List, ◌++◌, arith, length, take, drop, length-append, take-append, drop-append, take-all,
  append-nil, append_assoc, Text, le_bytes, le_value, length-le_bytes, le_value-le_bytes,
}
use p2p_network.Shared.Disk.{Disk, write_file-read}
use p2p_network.Shared.Torrent.{
  Torrent, new_torrent, set_path, torrent_bytes, save_to_file, read_string, read_torrent, of_file,
}

read_string_self : (s : Text) → read_string (length s) s ≡ s
unfolding read_string
read_string_self s =
    rw (take-all s (length s) (omega arith))
      (rw (let e : length s - length s ≡ 0 = omega arith in e) (append-nil s))

drop-append_append :
    (xs ys zs : List ℕ) (n : ℕ) → n ≡ length xs + length ys → drop n (xs ++ (ys ++ zs)) ≡ zs
drop-append_append xs ys zs n h =
    ap (drop n) (sym (append_assoc xs ys zs))
    ∙ drop-append (xs ++ ys) zs n (omega (arith, length-append xs ys))

-- The constructor reads three fields of 8, 4 and 4 bytes, and the name from what follows.
module _ (a b c rest : List ℕ) (ha : length a ≡ 8) (hb : length b ≡ 4) (hc : length c ≡ 4)
    (path : Text) where
  long_enough : 16 ≤ length (a ++ (b ++ (c ++ rest)))
  long_enough =
      omega (
        arith,
        length-append a (b ++ (c ++ rest)),
        length-append b (c ++ rest),
        length-append c rest,
      )

  hash_field : take 8 (a ++ (b ++ (c ++ rest))) ≡ a
  hash_field = take-append a (b ++ (c ++ rest)) 8 (sym ha)

  size_field : take 4 (drop 8 (a ++ (b ++ (c ++ rest)))) ≡ b
  size_field =
      ap (take 4) (drop-append a (b ++ (c ++ rest)) 8 (sym ha))
      ∙ take-append b (c ++ rest) 4 (sym hb)

  name_size_field : take 4 (drop 12 (a ++ (b ++ (c ++ rest)))) ≡ c
  name_size_field =
      ap (take 4) (drop-append_append a b (c ++ rest) 12 (omega arith))
      ∙ take-append c rest 4 (sym hc)

  name_bytes : drop 16 (a ++ (b ++ (c ++ rest))) ≡ rest
  name_bytes =
      ap (drop 16) (sym (append_assoc a b (c ++ rest)))
      ∙ drop-append_append (a ++ b) c rest 16 (omega (arith, length-append a b))

  read_torrent-fields :
      read_torrent path (a ++ (b ++ (c ++ rest)))
      ≡ some (set_path (new_torrent (le_value a) (le_value b) (read_string (le_value c) rest)) path)
  unfolding read_torrent
  read_torrent-fields =
      ground (arith, long_enough, hash_field, size_field, name_size_field, name_bytes)

-- Reading what `torrent_bytes` wrote gives the torrent with its new path.
read_torrent-torrent_bytes :
    (t : Torrent) (path : Text)
    → t.hashed < 2 ^ 64
    → t.size < 2 ^ 32
    → length t.file_name < 2 ^ 32
    → read_torrent path (torrent_bytes t) ≡ some (set_path t path)
unfolding torrent_bytes set_path
read_torrent-torrent_bytes t path h s n =
    rw (mod-eq_of_lt n, take-all t.file_name (length t.file_name) (omega arith))
      (read_torrent-fields (le_bytes 8 t.hashed) (le_bytes 4 t.size)
          (le_bytes 4 (length t.file_name)) t.file_name (length-le_bytes 8 _) (length-le_bytes 4 _)
          (length-le_bytes 4 _) path
        ∙ ground (
          arith,
          le_value-le_bytes 8 t.hashed (omega arith),
          le_value-le_bytes 4 t.size (omega arith),
          le_value-le_bytes 4 (length t.file_name) (omega arith),
          read_string_self t.file_name,
        ))

-- A torrent whose fields fit their types, saved where the disk can be written, is read back from
-- there with the same hash, size and name; its path is then the path of the torrent file. The saved
-- object itself keeps its fields too, but takes its own file name for its path.
pub of_file-save_to_file :
    (t : Torrent) (path : Text) (d : Disk)
    → t.hashed < 2 ^ 64
    → t.size < 2 ^ 32
    → length t.file_name < 2 ^ 32
    → d.writable path ≡ true
    → (of_file (save_to_file t path d).1 path ≡ some (set_path t path))
      × ((save_to_file t path d).0 ≡ set_path t t.file_name)
unfolding of_file save_to_file
of_file-save_to_file t path d h s n w = (
  rw (write_file-read d path (torrent_bytes t) w) (read_torrent-torrent_bytes t path h s n),
  refl,
)

-- The constructor meets undefined behaviour exactly on a file that exists and has fewer than the 16
-- bytes of the three fixed fields.
pub of_file-eq-none :
    (d : Disk) (path : Text)
    → (of_file d path ≡ none)
      ↔ ((bytes : List ℕ) × (d.files path ≡ some bytes) × (length bytes < 16))
unfolding of_file read_torrent
of_file-eq-none d path = elim (Option-cases (d.files path)) [
  | inl e ↦ (λ h. absurd (ground arith), λ (bytes, f, short). absurd (ground arith))
  | inr (bytes, e) ↦ (λ h. (bytes, e, ground arith), λ (bytes', f, short). ground arith)
]
