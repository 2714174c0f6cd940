-- ===== src/Shared/Torrent/Fields.antt =====
-- shared/Torrent.cpp: the ranges of the fields that the constructor reads from a torrent file.
use native.Mathlib.Nat.{pow-suc}
use p2p_network.Base.{
  ℕ, zero, suc, ◌*◌, ◌-◌, ◌^◌, ◌<◌, ◌≡◌, subst, true, some, Option-cases, inl, inr, Bool-cases,
  List, [], ◌∷◌, arith, All, ltb, length, take, drop, replicate, length-append, length-take,
  length-replicate, Text, le_value,
}
use p2p_network.Shared.Disk.{Disk}
use p2p_network.Shared.Torrent.{
  Torrent, empty_torrent, new_torrent, set_path, save_to_file, read_string, read_torrent, of_file,
}
use p2p_network.Shared.Torrent.RoundTrip.{of_file-save_to_file}

abbrev pub IsByte : ℕ → Type 0
IsByte b = b < 256

-- The fields of a torrent are values of their C++ types, and its name is no longer than its length in
-- a torrent file can say.
pub record Fits (t : Torrent) : Type 0 where
  pub hash_fits : t.hashed < 2 ^ 64
  pub size_fits : t.size < 2 ^ 32
  pub name_fits : length t.file_name < 2 ^ 32

All-drop : (n : ℕ) (bs : List ℕ) → All IsByte bs → All IsByte (drop n bs)
All-drop zero bs h = h
All-drop (suc n) [] h = h
All-drop (suc n) (b ∷ bs) h = All-drop n bs h.1

le_value-take-lt : (w : ℕ) (bs : List ℕ) → All IsByte bs → le_value (take w bs) < 256 ^ w
unfolding le_value
le_value-take-lt zero bs h = omega arith
le_value-take-lt (suc w) [] h =
    let e : 256 ^ suc w ≡ 256 ^ w * 256 = pow-suc 256 w in omega (arith, le_value-take-lt w [] tt)
le_value-take-lt (suc w) (b ∷ bs) h =
    let e : 256 ^ suc w ≡ 256 ^ w * 256 = pow-suc 256 w in omega (arith, le_value-take-lt w bs h.1)

length-read_string : (n : ℕ) (bs : List ℕ) → length (read_string n bs) ≡ n
unfolding read_string
length-read_string n bs = omega (
  arith,
  length-append (take n bs) (replicate (n - length (take n bs)) 0),
  length-take n bs,
  length-replicate {A = ℕ} (n - length (take n bs)) 0,
)

-- What the constructor makes of the bytes of a file that has a header.
abbrev torrent_in : Text → List ℕ → Torrent
torrent_in path bs =
    set_path
      (new_torrent (le_value (take 8 bs)) (le_value (take 4 (drop 8 bs)))
        (read_string (le_value (take 4 (drop 12 bs))) (drop 16 bs)))
      path

torrent_in-Fits : (path : Text) (bs : List ℕ) → All IsByte bs → Fits (torrent_in path bs)
unfolding set_path
torrent_in-Fits path bs h = record {
  hash_fits = omega (arith, le_value-take-lt 8 bs h);
  size_fits = omega (arith, le_value-take-lt 4 (drop 8 bs) (All-drop 8 bs h));
  name_fits = omega (
    arith,
    length-read_string (le_value (take 4 (drop 12 bs))) (drop 16 bs),
    le_value-take-lt 4 (drop 12 bs) (All-drop 12 bs h),
  );
}

read_torrent-Fits :
    (path : Text) (bs : List ℕ) (t : Torrent)
    → All IsByte bs
    → read_torrent path bs ≡ some t
    → Fits t
unfolding read_torrent
read_torrent-Fits path bs t h e = elim (Bool-cases (ltb (length bs) 16)) [
  | inl short ↦ absurd (ground (arith, short, e))
  | inr long ↦
      let same : torrent_in path bs ≡ t = ground (arith, long, e) in
      subst Fits same (torrent_in-Fits path bs h)
]

of_file-Fits :
    (d : Disk) (path : Text) (t : Torrent)
    → ((bs : List ℕ) → d.files path ≡ some bs → All IsByte bs)
    → of_file d path ≡ some t
    → Fits t
unfolding of_file set_path
of_file-Fits d path t h e = elim (Option-cases (d.files path)) [
  | inl missing ↦
      let same : record empty_torrent { size = 2 ^ 32 - 1 } ≡ t = ground (arith, missing, e) in
      subst Fits same
        (record { hash_fits = omega arith; size_fits = omega arith; name_fits = omega arith })
  | inr (bs, there) ↦ read_torrent-Fits path bs t (h bs there) (ground (arith, there, e))
]

-- Whatever bytes a torrent file has, and also where there is none, the torrent that the constructor
-- makes has fields in the ranges of their types. So it can be passed on: saved at any path that can be
-- written, it is read back from there with the same hash, size and name, and that path.
pub save_to_file-of_file :
    (d : Disk) (path other : Text) (t : Torrent)
    → ((bs : List ℕ) → d.files path ≡ some bs → All IsByte bs)
    → of_file d path ≡ some t
    → d.writable other ≡ true
    → Fits t × (of_file (save_to_file t other d).1 other ≡ some (set_path t other))
save_to_file-of_file d path other t h e w =
    let fits = of_file-Fits d path t h e in
    (fits, (of_file-save_to_file t other d fits.hash_fits fits.size_fits fits.name_fits w).0)
