-- ===== src/Client/FileManager/Storing.antt =====
-- client/file/FileManager.cpp: a segment that is stored can be read back.
use p2p_network.Base.{
  ◌⊎◌, inl, inr, ℕ, ◌+◌, ◌-◌, ◌*◌, ◌^◌, ◌≤◌, ◌<◌, ◌≡◌, refl, ap, sym, ◌∙◌, Bool, true, false, ◌||◌,
  none, some, List, [], ◌∷◌, ◌++◌, arith, ◌==◌, any, ltb, if◌then◌else◌, length, take, drop,
  take-append, append-nil, Text, text_eq, text_eq_refl, returns, unfinished, ◌>>=◌,
}
use p2p_network.Client.FileManager.{
  FileManager, OpenedFile, is_read_locked, is_write_locked, put, read_lock, erase_first, write_at,
  find_opened, store_segment_to_file, get_segment_bytes, write_segment, write_unlock,
}
use p2p_network.Client.FileManager.Chunks.{chunk, chunk-write_at, length-write_at_max}

pub any-append {ℓ} :
    {A : Type ℓ} (p : A → Bool) (xs ys : List A) → any p (xs ++ ys) ≡ (any p xs || any p ys)
any-append p [] ys = refl
any-append p (x ∷ xs) ys = ground (arith, any-append p xs ys)

pub erase_first-append :
    (name : Text) (ws : List Text)
    → any (λ w. text_eq w name) ws ≡ false
    → erase_first name (ws ++ name ∷ []) ≡ ws
unfolding erase_first
erase_first-append name [] h = rw (text_eq_refl name)
erase_first-append name (w ∷ ws) h = ground (arith, erase_first-append name ws)

find_opened-append :
    (name : Text) (os : List OpenedFile) (o : OpenedFile)
    → any (λ x. text_eq x.file_name name) os ≡ false
    → text_eq o.file_name name ≡ true
    → find_opened name (os ++ o ∷ []) ≡ some o
unfolding find_opened
find_opened-append name [] o h e = rw e
find_opened-append name (x ∷ os) o h e = ground (arith, find_opened-append name os o)

-- The locks do not stand in the way: nobody reads or writes the file.
abbrev pub IsUnlocked : FileManager → Text → Type 0
IsUnlocked fm name = (is_read_locked fm name ≡ false) × (is_write_locked fm name ≡ false)

in_bounds :
    (segment : Text) (id : ℕ)
    → length segment ≡ 8000
    → id * 8000 < 2 ^ 31
    → (ltb (length segment + 1) 8000 || ltb (2 ^ 31 - 1) (id * 8000)) ≡ false
in_bounds segment id full small = ground arith

pub write_segment-found :
    (fm : FileManager) (name : Text) (id : ℕ) (segment : Text) (bytes : List ℕ)
    → length segment ≡ 8000
    → id * 8000 < 2 ^ 31
    → write_segment name id segment (some bytes) fm
      ≡ write_unlock name
          (record fm { files = put fm.files name (write_at bytes (id * 8000) segment) })
unfolding write_segment
write_segment-found fm name id segment bytes full small =
    rw (in_bounds segment id full small, take-append segment (0 ∷ []) 8000 (sym full))

pub store_lem :
    (fm : FileManager) (name : Text) (id : ℕ) (segment : Text) (bytes : List ℕ)
    → IsUnlocked fm name
    → fm.files name ≡ some bytes
    → length segment ≡ 8000
    → id * 8000 < 2 ^ 31
    → store_segment_to_file name id segment fm
      ≡ returns tt (record fm { files = put fm.files name (write_at bytes (id * 8000) segment) })
unfolding store_segment_to_file
store_lem fm name id segment bytes free found full small =
    rw (free.0, found, write_segment-found _ name id segment bytes full small)
      (unfold write_unlock in rw (erase_first-append name fm.write_locked free.1))

read_lem :
    (fm : FileManager) (name : Text) (j : ℕ) (bytes : List ℕ)
    → IsUnlocked fm name
    → fm.files name ≡ some bytes
    → j * 8000 + 8000 ≤ length bytes
    → j * 8000 < 2 ^ 31
    → (fm' : FileManager) × ((read_lock name >>= λ _. get_segment_bytes name j 8000) fm
        ≡ returns (some (chunk 8000 j bytes)) fm')
unfolding read_lock get_segment_bytes chunk
read_lem fm name j bytes free found fits small =
    let opened : OpenedFile = record { file_name = name; failed = false } in
    (
      record fm { read_locked = fm.read_locked ++ opened ∷ [] },
      ground (
        arith,
        append-nil (take 8000 (drop (j * 8000) bytes)),
        find_opened-append name fm.read_locked opened free.0 (text_eq_refl name),
      ),
    )

-- A segment of 8000 bytes, stored in a file that exists, at a position within its length and while nobody
-- has locked it, is read back by `readLock` and `getSegment`, also where the file was too short for all of
-- it, and every other segment that lies whole in the file reads as before; the store leaves no lock.
pub get_segment-store_segment :
    (fm : FileManager) (name : Text) (id j : ℕ) (segment : Text) (bytes : List ℕ)
    → IsUnlocked fm name
    → fm.files name ≡ some bytes
    → length segment ≡ 8000
    → id * 8000 ≤ length bytes
    → (j ≡ id) ⊎ (j * 8000 + 8000 ≤ length bytes)
    → length bytes < 2 ^ 31
    → (stored : FileManager) × (fm' : FileManager) × (store_segment_to_file name id segment fm
        ≡ returns tt stored)
      × IsUnlocked stored name
      × ((read_lock name >>= λ _. get_segment_bytes name j 8000) stored
          ≡ returns (some (if id == j then segment else chunk 8000 j bytes)) fm')
get_segment-store_segment fm name id j segment bytes free found full fits_id fits_j small =
    let new : List ℕ = write_at bytes (id * 8000) segment in
    let stored : FileManager = record fm { files = put fm.files name new } in
    let grown = length-write_at_max bytes segment (id * 8000) fits_id in
    let within : (j * 8000 + 8000 ≤ length new) × (j * 8000 < 2 ^ 31) = elim fits_j [
      | inl same ↦ (omega (arith, grown, full, same), omega (arith, small, same, fits_id))
      | inr whole ↦ (omega (arith, grown, whole), omega (arith, small, whole))
    ] in
    let (fm', read) = read_lem stored name j new free (rw (text_eq_refl name)) within.0 within.1 in
    (
      stored,
      fm',
      store_lem fm name id segment bytes free found full (omega arith),
      free,
      read
          ∙ ap (λ bytes'. returns (some bytes') fm')
              (chunk-write_at 8000 id j segment bytes full fits_id),
    )

-- A segment for a file that does not exist is not stored, and the file name stays locked for writing:
-- a `readLock` of it then waits.
pub store_segment-missing :
    (fm : FileManager) (name : Text) (id : ℕ) (segment : Text)
    → IsUnlocked fm name
    → fm.files name ≡ none
    → (fm' : FileManager) × (store_segment_to_file name id segment fm ≡ returns tt fm')
      × (is_write_locked fm' name ≡ true)
      × (read_lock name fm' ≡ unfinished)
unfolding store_segment_to_file read_lock
store_segment-missing fm name id segment free missing =
    let locked : any (λ w. text_eq w name) (fm.write_locked ++ name ∷ []) ≡ true =
      any-append (λ w. text_eq w name) fm.write_locked (name ∷ [])
      ∙ ground (arith, text_eq_refl name) in
    (
      record fm { write_locked = fm.write_locked ++ name ∷ [] },
      rw (free.0, missing),
      locked,
      rw locked,
    )
