-- ===== src/Client/FileManager/Locking.antt =====
-- client/file/FileManager.cpp: what the locks exclude, call by call and when calls interleave.
use p2p_network.Base.{
  ℕ, ◌≡◌, ◌∙◌, refl, Bool, true, some, List, [], ◌∷◌, ◌++◌, arith, any, Text, text_eq, text_eq_refl,
  text_eq_iff, returns, Bool-cases, Option-cases, ◌⊎◌, inl, inr, subst, false,
}
use p2p_network.Client.FileManager.{
  FileManager, OpenedFile, is_read_locked, is_write_locked, read_lock, read_lock_check,
  read_lock_open, write_lock, write_unlock, erase_first,
}
use p2p_network.Client.FileManager.Storing.{IsUnlocked, any-append}

-- No file is locked for reading and for writing.
abbrev pub IsExclusive : FileManager → Type 0
IsExclusive fm = (n : Text) → is_read_locked fm n ≡ true → is_write_locked fm n ≡ false

any-erase_first :
    (name n : Text) (ws : List Text)
    → any (λ w. text_eq w n) ws ≡ false
    → any (λ w. text_eq w n) (erase_first name ws) ≡ false
unfolding erase_first
any-erase_first name n [] h = refl
any-erase_first name n (w ∷ ws) h = ground (arith, any-erase_first name n ws)

abbrev with_reader : FileManager → Text → FileManager
with_reader fm name = record fm {
  read_locked = fm.read_locked ++ record { file_name = name; failed = false } ∷ [];
}

with_reader-IsExclusive :
    (fm : FileManager) (name : Text)
    → IsExclusive fm
    → is_write_locked fm name ≡ false
    → IsExclusive (with_reader fm name)
with_reader-IsExclusive fm name apart free n h = elim (Bool-cases (text_eq name n)) [
  | inl same ↦ subst (λ x. is_write_locked fm x ≡ false) ((text_eq_iff name n).0 same) free
  | inr other ↦ apart n (
      ground (
        arith,
        any-append (λ o. text_eq o.file_name n) fm.read_locked
            (record { file_name = name; failed = false } ∷ []),
      ))
]

with_writer-IsExclusive :
    (fm : FileManager) (name : Text)
    → IsExclusive fm
    → is_read_locked fm name ≡ false
    → IsExclusive (record fm { write_locked = fm.write_locked ++ name ∷ [] })
with_writer-IsExclusive fm name apart free n h = elim (Bool-cases (text_eq name n)) [
  | inl same ↦
      absurd (
        ground (arith, subst (λ x. is_read_locked fm x ≡ false) ((text_eq_iff name n).0 same) free))
  | inr other ↦ ground (arith, apart n h, any-append (λ w. text_eq w n) fm.write_locked (name ∷ []))
]

read_lock-cases :
    (name : Text) (fm fm' : FileManager) (answer : Bool)
    → read_lock name fm ≡ returns answer fm'
    → (fm ≡ fm') ⊎ ((with_reader fm name ≡ fm') × (is_write_locked fm name ≡ false))
unfolding read_lock
read_lock-cases name fm fm' answer e = elim (Bool-cases (is_write_locked fm name)) [
  | inl waits ↦ absurd (ground (arith, waits, e))
  | inr free ↦ elim (Bool-cases (is_read_locked fm name)) [
    | inl read ↦ inl (ground (arith, free, read, e))
    | inr unread ↦ elim (Option-cases (fm.files name)) [
      | inl none_there ↦ inl (ground (arith, free, unread, none_there, e))
      | inr (bytes, there) ↦ inr (ground (arith, free, unread, there, e), free)
    ]
  ]
]

-- Calls that run one after another keep the file locks exclusive: `readLock` and `writeLock`, where
-- they do not wait, and `writeUnlock`.
pub locks-IsExclusive :
    (name : Text) (fm fm' : FileManager) (answer : Bool)
    → IsExclusive fm
    → (read_lock name fm ≡ returns answer fm' → IsExclusive fm')
      × (write_lock name fm ≡ returns tt fm' → IsExclusive fm')
      × (write_unlock name fm ≡ returns tt fm' → IsExclusive fm')
unfolding write_lock write_unlock
locks-IsExclusive name fm fm' answer apart = (
  λ e. elim (read_lock-cases name fm fm' answer e) [
    | inl same ↦ subst IsExclusive same apart
    | inr (more, free) ↦ subst IsExclusive more (with_reader-IsExclusive fm name apart free)
  ],
  λ e. elim (Bool-cases (is_read_locked fm name)) [
    | inl read ↦ absurd (ground (arith, read, e))
    | inr unread ↦
        let more : record fm { write_locked = fm.write_locked ++ name ∷ [] } ≡ fm' =
          ground (arith, unread, e) in
        subst IsExclusive more (with_writer-IsExclusive fm name apart unread)
  ],
  λ e.
      let fewer : record fm { write_locked = erase_first name fm.write_locked } ≡ fm' =
        ground (arith, e) in
      subst IsExclusive fewer (λ n h. any-erase_first name n fm.write_locked (apart n h)),
)

-- `readLock` lets go of one mutex before it takes the other. If a writer locks a file in between, the
-- file ends up locked for reading and for writing, for every file that exists and that nobody had
-- locked.
pub read_lock_overtaken :
    (fm : FileManager) (name : Text) (bytes : List ℕ)
    → IsUnlocked fm name
    → fm.files name ≡ some bytes
    → (mid : FileManager) × (end : FileManager) × (read_lock_check name fm ≡ returns tt fm)
      × (write_lock name fm ≡ returns tt mid)
      × (read_lock_open name mid ≡ returns true end)
      × (is_read_locked end name ≡ true)
      × (is_write_locked end name ≡ true)
unfolding read_lock_check write_lock read_lock_open
read_lock_overtaken fm name bytes free found =
    let opened : OpenedFile = record { file_name = name; failed = false } in
    let mid : FileManager = record fm { write_locked = fm.write_locked ++ name ∷ [] } in
    (
      mid,
      record mid { read_locked = fm.read_locked ++ opened ∷ [] },
      ground arith,
      ground arith,
      rw (free.0, found),
      any-append (λ o. text_eq o.file_name name) fm.read_locked (opened ∷ [])
          ∙ ground (arith, text_eq_refl name),
      any-append (λ w. text_eq w name) fm.write_locked (name ∷ [])
          ∙ ground (arith, text_eq_refl name),
    )
