-- ===== src/Client/FileManager/Calls.antt =====
-- client/file/FileManager.cpp: sequences of calls of a file manager, one after another.
use p2p_network.Base.{
  ℕ, zero, suc, ◌+◌, ◌*◌, ◌-◌, ◌^◌, ◌≡◌, ◌∙◌, refl, Bool, true, false, ◌||◌, Option, none, some,
  List, [], ◌∷◌, ◌++◌, arith, any, ltb, if◌then◌else◌, length, Text, text_eq, text_eq_refl, subst,
  Bool-cases, ◌⊎◌, inl, inr, Outcome, Action, then_run, ◌>>=◌, ◌>>◌, pure, returns, throws,
  undefined, unfinished,
}
use p2p_network.Base.Int.{ℤ, pos, negsuc}
use p2p_network.Shared.{default_segment_size}
use p2p_network.Shared.Torrent.{Torrent}
use p2p_network.Client.File.{File}
use p2p_network.Client.FileManager.{
  FileManager, OpenedFile, is_read_locked, is_write_locked, read_lock, read_lock_check,
  read_lock_open, open_found, read_unlock, write_lock, write_segment, store_segment_to_file,
  create_local_file, store_file, stored_in, write_data, fail_first, find_opened, read_open,
  get_segment_bytes,
}
use p2p_network.Client.FileManager.Storing.{any-append}

-- The calls that other classes can make.
pub data Call : Type 0 where
  lock_for_reading unlock_after_reading : Text → Call
  store_segment : Text → ℕ → Text → Call
  store_whole : Bool → File → Call
  create_local : Bool → Torrent → Call
  get_bytes : Text → ℕ → ℕ → Call

no_result {ℓ} : {A : Type ℓ} → A → Action FileManager (Unit {0})
no_result a = pure tt

unfoldable pub make_call : Call → Action FileManager (Unit {0})
unfolding no_result
make_call (lock_for_reading name) = read_lock name >>= no_result
make_call (unlock_after_reading name) = read_unlock name
make_call (store_segment name id segment) = store_segment_to_file name id segment
make_call (store_whole opens f) = store_file opens f
make_call (create_local opens t) = create_local_file opens t
make_call (get_bytes name id size) = get_segment_bytes name id size >>= no_result

unfoldable pub make_calls : List Call → Action FileManager (Unit {0})
unfolding make_call
make_calls [] = pure tt
make_calls (c ∷ cs) = do make_call c; make_calls cs

module _ (name : Text) where
  -- Where a call returns, the file is locked for reading.
  abbrev Locked {ℓ} : {A : Type ℓ} → Outcome FileManager A → Type 0
  Locked (returns a fm) = is_read_locked fm name ≡ true
  Locked _ = Unit

  Locked-next {ℓ κ} :
      {A : Type ℓ} {B : Type κ} (o : Outcome FileManager A) (f : A → Action FileManager B)
      → Locked o
      → ((a : A) (fm : FileManager) → is_read_locked fm name ≡ true → Locked (f a fm))
      → Locked (then_run o f)
  Locked-next (returns a fm) f h later = later a fm h
  Locked-next (throws fm) f h later = tt
  Locked-next undefined f h later = tt
  Locked-next unfinished f h later = tt

  Locked-if {ℓ} :
      {A : Type ℓ} (b : Bool) (x y : Outcome FileManager A)
      → Locked x
      → Locked y
      → Locked (if b then x else y)
  Locked-if true x y hx hy = hx
  Locked-if false x y hx hy = hy

  any-fail_first :
      (failing : Text) (os : List OpenedFile)
      → any (λ o. text_eq o.file_name name) (fail_first failing os)
        ≡ any (λ o. text_eq o.file_name name) os
  unfolding fail_first
  any-fail_first failing [] = refl
  any-fail_first failing (o ∷ os) = ground (arith, any-fail_first failing os)

  open_found-Locked :
      (other : Text) (bytes : Option (List ℕ)) (fm : FileManager)
      → is_read_locked fm name ≡ true
      → Locked (open_found other bytes fm)
  unfolding open_found
  open_found-Locked other none fm h = h
  open_found-Locked other (some bytes) fm h =
      any-append (λ o. text_eq o.file_name name) fm.read_locked
        (record { file_name = other; failed = false } ∷ [])
      ∙ ground (arith, h)

  read_lock-Locked :
      (other : Text) (fm : FileManager)
      → is_read_locked fm name ≡ true
      → Locked (read_lock other fm)
  unfolding read_lock
  read_lock-Locked other fm h =
      Locked-next (read_lock_check other fm) (λ _. read_lock_open other)
        (Locked-if (is_write_locked fm other) unfinished (returns tt fm) tt h)
        (λ _ fm' h'.
          Locked-if (is_read_locked fm' other) (returns true fm') _ h'
            (open_found-Locked other (fm'.files other) fm' h'))

  write_lock-Locked :
      (other : Text) (fm : FileManager)
      → is_read_locked fm name ≡ true
      → Locked (write_lock other fm)
  unfolding write_lock
  write_lock-Locked other fm h = Locked-if (is_read_locked fm other) unfinished _ tt h

  write_segment-Locked :
      (other : Text) (id : ℕ) (segment : Text) (bytes : Option (List ℕ)) (fm : FileManager)
      → is_read_locked fm name ≡ true
      → Locked (write_segment other id segment bytes fm)
  unfolding write_segment
  write_segment-Locked other id segment none fm h = h
  write_segment-Locked other id segment (some bytes) fm h =
      Locked-if
        (ltb (length segment + 1) default_segment_size
          || ltb (2 ^ 31 - 1) (id * default_segment_size))
        undefined _ tt h

  stored_in-Locked :
      (opens : Bool) (other : Text) (f : File) (fm : FileManager)
      → is_read_locked fm name ≡ true
      → Locked (stored_in opens other f fm)
  unfolding stored_in
  stored_in-Locked false other f fm h = h
  stored_in-Locked true other f fm h = data_written f.size
    where
      data_written : (n : ℤ) → Locked (write_data other n fm)
      data_written (pos zero) = h
      data_written (pos (suc n)) = tt
      data_written (negsuc n) = tt

  read_open-Locked :
      (other : Text) (position size : ℕ) (o : Option OpenedFile) (bytes : Option (List ℕ))
      (fm : FileManager)
      → is_read_locked fm name ≡ true
      → Locked (read_open other position size o bytes fm)
  unfolding read_open
  read_open-Locked other position size none bytes fm h = tt
  read_open-Locked other position size (some o) none fm h = h
  read_open-Locked other position size (some o) (some bytes) fm h =
      Locked-if o.failed (returns none fm) _ h (
        Locked-if (ltb (length bytes) (position + size)) _ _
          (any-fail_first other fm.read_locked ∙ h) h)

  make_call-Locked :
      (c : Call) (fm : FileManager) → is_read_locked fm name ≡ true → Locked (make_call c fm)
  unfolding make_call
  make_call-Locked (lock_for_reading other) fm h =
      Locked-next (read_lock other fm) (λ a. no_result a) (read_lock-Locked other fm h)
        (λ a fm' h'. h')
  make_call-Locked (unlock_after_reading other) fm h =
      unfold read_unlock in Locked-if (is_read_locked fm other) undefined (returns tt fm) tt h
  make_call-Locked (store_segment other id segment) fm h =
      unfold store_segment_to_file in
      Locked-next (write_lock other fm)
        (λ _ fm'. write_segment other id segment (fm'.files other) fm')
        (write_lock-Locked other fm h)
        (λ _ fm' h'. write_segment-Locked other id segment (fm'.files other) fm' h')
  make_call-Locked (store_whole opens f) fm h =
      unfold store_file in
      Locked-next (write_lock _ fm) (λ _. stored_in opens _ f) (write_lock-Locked _ fm h)
        (λ _ fm' h'. stored_in-Locked opens _ f fm' h')
  make_call-Locked (create_local opens t) fm h =
      unfold create_local_file in Locked-if opens _ (returns tt fm) h h
  make_call-Locked (get_bytes other id size) fm h =
      Locked-next (get_segment_bytes other id size fm) (λ a. no_result a)
        (unfold get_segment_bytes in
          Locked-if (ltb default_segment_size size) (returns none fm) _ h (
            Locked-if (ltb (2 ^ 31 - 1) (id * default_segment_size)) undefined _ tt (
              read_open-Locked other (id * default_segment_size) size
                (find_opened other fm.read_locked) (fm.files other) fm h)))
        (λ a fm' h'. h')

  make_calls-Locked :
      (cs : List Call) (fm : FileManager)
      → is_read_locked fm name ≡ true
      → Locked (make_calls cs fm)
  unfolding make_calls
  make_calls-Locked [] fm h = h
  make_calls-Locked (c ∷ cs) fm h =
      Locked-next (make_call c fm) (λ _. make_calls cs) (make_call-Locked c fm h)
        (λ _ fm' h'. make_calls-Locked cs fm' h')

  read_lock_open-IsLocked :
      (fm fm' : FileManager)
      → read_lock_open name fm ≡ returns true fm'
      → is_read_locked fm' name ≡ true
  unfolding read_lock_open
  read_lock_open-IsLocked fm fm' e = elim (Bool-cases (is_read_locked fm name)) [
    | inl held ↦
        let same : fm ≡ fm' = ground (arith, held, e) in
        subst (λ m. is_read_locked m name ≡ true) same held
    | inr free ↦ found (fm.files name) (ground (arith, free, e))
  ]
    where
      found :
          (bytes : Option (List ℕ))
          → open_found name bytes fm ≡ returns true fm'
          → is_read_locked fm' name ≡ true
      found none h = absurd (ground arith)
      found (some bytes) h =
          let opened : OpenedFile = record { file_name = name; failed = false } in
          let same : record fm { read_locked = fm.read_locked ++ opened ∷ [] } ≡ fm' =
            ground (arith, h) in
          subst (λ m. is_read_locked m name ≡ true) same
            (any-append (λ o. text_eq o.file_name name) fm.read_locked (opened ∷ [])
              ∙ ground (arith, text_eq_refl name))

  -- A file for which `readLock` has once said true is locked for reading ever after: whatever calls of
  -- the file manager follow and return, the file is still locked, every later `storeSegmentToFile` of
  -- it waits without end, and `readUnlock` of it is undefined behaviour.
  pub read_lock-make_calls :
      (fm locked fm' : FileManager) (cs : List Call)
      → read_lock name fm ≡ returns true locked
      → make_calls cs locked ≡ returns tt fm'
      → (is_read_locked fm' name ≡ true)
        × ((id : ℕ) (segment : Text) → store_segment_to_file name id segment fm' ≡ unfinished)
        × (read_unlock name fm' ≡ undefined)
  unfolding read_lock store_segment_to_file read_unlock
  read_lock-make_calls fm locked fm' cs taken run =
      let held : is_read_locked locked name ≡ true =
        opened (Bool-cases (is_write_locked fm name)) in
      let still : is_read_locked fm' name ≡ true =
        subst Locked run (make_calls-Locked cs locked held) in
      (still, λ id segment. rw still, rw still)
    where
      opened :
          (is_write_locked fm name ≡ true) ⊎ (is_write_locked fm name ≡ false)
          → is_read_locked locked name ≡ true
      opened (inl waits) = absurd (ground (arith, waits, taken))
      opened (inr free) = read_lock_open-IsLocked fm locked (ground (arith, free, taken))
