-- ===== src/Client/FileManager.antt =====
-- client/file/FileManager.cpp: the segments of a file on disk, and the locks on files by name. A call
-- that waits on the condition variable is `unfinished`; nobody wakes it but `writeUnlock`.
pub mod Chunks
pub mod Storing
pub mod Locking
pub mod Calls
use p2p_network.Base.{
  ℕ, zero, ◌+◌, ◌-◌, ◌*◌, ◌^◌, Bool, true, false, Option, none, some, List, [], ◌∷◌, ◌++◌, ltb,
  ◌||◌, if◌then◌else◌, any, length, take, drop, replicate, Text, text_eq, Action, ◌>>=◌, ◌>>◌,
  returns, undefined, unfinished,
}
use p2p_network.Shared.{default_segment_size}
use p2p_network.Shared.Torrent.{Torrent}
use p2p_network.Base.Int.{ℤ, pos}
use p2p_network.Client.File.{File}

-- `stream` of an opened file, as far as its error flag goes.
pub record OpenedFile : Type 0 where
  pub file_name : Text
  pub failed : Bool

pub record FileManager : Type 0 where
  pub read_locked : List OpenedFile
  pub write_locked : List Text
  pub files : Text → Option (List ℕ)

abbrev pub is_read_locked : FileManager → Text → Bool
is_read_locked fm name = any (λ o. text_eq o.file_name name) fm.read_locked

abbrev pub is_write_locked : FileManager → Text → Bool
is_write_locked fm name = any (λ w. text_eq w name) fm.write_locked

abbrev pub put : (Text → Option (List ℕ)) → Text → List ℕ → Text → Option (List ℕ)
put files name bytes other = if text_eq other name then some bytes else files other

-- The first part of `readLock`: it waits while the file is locked for writing, and lets go of
-- `writeLockMutex` before it goes on.
unfoldable pub read_lock_check : Text → Action FileManager (Unit {0})
read_lock_check name fm = if is_write_locked fm name then unfinished else returns tt fm

open_found : Text → Option (List ℕ) → Action FileManager Bool
open_found name none fm = returns false fm
open_found name (some bytes) fm =
    returns true (record fm {
      read_locked = fm.read_locked ++ record { file_name = name; failed = false } ∷ [];
    })

-- The second part, under `readLockMutex`: a file that is locked for reading already is left so.
unfoldable pub read_lock_open : Text → Action FileManager Bool
unfolding open_found
read_lock_open name fm =
    if is_read_locked fm name then returns true fm else open_found name (fm.files name) fm

unfoldable pub read_lock : Text → Action FileManager Bool
unfolding read_lock_check read_lock_open
read_lock name = do read_lock_check name; read_lock_open name

-- `erase(f)` in a loop that goes on with `++f`: the iterator is invalid by then.
unfoldable pub read_unlock : Text → Action FileManager (Unit {0})
read_unlock name fm = if is_read_locked fm name then undefined else returns tt fm

-- `writeLock` holds both mutexes while it looks; it waits for readers, not for writers.
unfoldable pub write_lock : Text → Action FileManager (Unit {0})
write_lock name fm =
    if is_read_locked fm name
    then unfinished
    else returns tt (record fm { write_locked = fm.write_locked ++ name ∷ [] })

unfoldable pub erase_first : Text → List Text → List Text
erase_first name [] = []
erase_first name (w ∷ ws) = if text_eq w name then ws else w ∷ erase_first name ws

unfoldable pub write_unlock : Text → Action FileManager (Unit {0})
unfolding erase_first
write_unlock name fm = returns tt (record fm { write_locked = erase_first name fm.write_locked })

-- `write` at a position: what lies before it is filled with zeros where the file is shorter.
unfoldable pub write_at : List ℕ → ℕ → List ℕ → List ℕ
write_at bytes position new =
    (take position bytes ++ replicate (position - length bytes) 0)
    ++ (new ++ drop (position + length new) bytes)

unfoldable pub write_segment : Text → ℕ → Text → Option (List ℕ) → Action FileManager (Unit {0})
unfolding write_at write_unlock
-- The stream does not open, and the function returns with the file locked.
write_segment name id segment none fm = returns tt fm
write_segment name id segment (some bytes) fm =
    -- 8000 bytes are taken from `c_str()`, which has one byte more than the string, and the position
    -- is an `int`.
    if ltb (length segment + 1) default_segment_size || ltb (2 ^ 31 - 1) (id * default_segment_size)
    then undefined
    else write_unlock name (record fm {
      files = put fm.files name (
          write_at bytes (id * default_segment_size)
            (take default_segment_size (segment ++ 0 ∷ [])));
    })

unfoldable pub store_segment_to_file : Text → ℕ → Text → Action FileManager (Unit {0})
unfolding write_lock write_segment
store_segment_to_file name id segment = do
  write_lock name
  λ fm. write_segment name id segment (fm.files name) fm

-- A file that does not open is left alone.
unfoldable pub create_local_file : Bool → Torrent → Action FileManager (Unit {0})
create_local_file opens t fm =
    if opens
    then returns tt (record fm { files = put fm.files t.file_name (replicate t.size 0) })
    else returns tt fm

write_data : Text → ℤ → Action FileManager (Unit {0})
-- The data pointer of a file is always null: all but an empty write reads from it.
unfolding write_unlock
write_data name (pos zero) fm = write_unlock name (record fm { files = put fm.files name [] })
write_data name _ fm = undefined

stored_in : Bool → Text → File → Action FileManager (Unit {0})
unfolding write_data
stored_in false name f fm = returns tt fm
stored_in true name f fm = write_data name f.size fm

-- `storeFile`: the name is fixed, and a file that does not open stays locked.
unfoldable pub store_file : Bool → File → Action FileManager (Unit {0})
unfolding write_lock stored_in
store_file opens f = do write_lock dummy; stored_in opens dummy f
  where
    dummy : Text
    dummy = b'd' ∷ b'u' ∷ b'm' ∷ b'm' ∷ b'y' ∷ []

unfoldable pub fail_first : Text → List OpenedFile → List OpenedFile
fail_first name [] = []
fail_first name (o ∷ os) =
    if text_eq o.file_name name then record o { failed = true } ∷ os else o ∷ fail_first name os

unfoldable pub find_opened : Text → List OpenedFile → Option OpenedFile
find_opened name [] = none
find_opened name (o ∷ os) = if text_eq o.file_name name then some o else find_opened name os

-- A read past the end fails, and so does all that is done with the stream afterwards.
read_segment : Text → ℕ → ℕ → List ℕ → Action FileManager (Option (List ℕ))
unfolding fail_first
read_segment name position size bytes fm =
    if ltb (length bytes) (position + size)
    then returns none (record fm { read_locked = fail_first name fm.read_locked })
    else returns
        (some (take size (drop position bytes) ++ replicate (default_segment_size - size) 0)) fm

read_open :
    Text → ℕ → ℕ → Option OpenedFile → Option (List ℕ) → Action FileManager (Option (List ℕ))
unfolding read_segment
-- No opened file of that name: the pointer was never set.
read_open name position size none bytes fm = undefined
read_open name position size (some o) none fm = returns none fm
read_open name position size (some o) (some bytes) fm =
    if o.failed then returns none fm else read_segment name position size bytes fm

-- `getSegment`; `none` is the null pointer.
unfoldable pub get_segment_bytes : Text → ℕ → ℕ → Action FileManager (Option (List ℕ))
unfolding read_open find_opened
get_segment_bytes name id size fm =
    if ltb default_segment_size size
    then returns none fm
    else if ltb (2 ^ 31 - 1) (id * default_segment_size)
    then undefined
    else read_open name (id * default_segment_size) size (find_opened name fm.read_locked)
        (fm.files name) fm
