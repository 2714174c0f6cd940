-- ===== src/Client/Menu/Rounds.antt =====
-- client/main.cpp: the rounds of the menu, from the first to the one that it ends with.
use p2p_network.Base.{
  Bool-cases, ◌==◌, ==_iff, ap, ◌∙◌, ℕ, zero, suc, ◌≤◌, ◌<◌, ◌≡◌, ◌≢◌, ◌⊎◌, inl, inr, refl, Option,
  none, some, ◌∷◌, ◌++◌, [], arith, length, Text, Outcome, returns, throws, undefined, unfinished,
  true,
}
use p2p_network.Base.Int.{ℤ, pos, negsuc}
use p2p_network.Shared.Torrent.{Torrent, of_file}
use p2p_network.Shared.Listener.{ListenCalls, conn_listen}
use p2p_network.Client.File.{File, id_of_hash}
use p2p_network.Client.FileManager.{FileManager, create_local_file}
use p2p_network.Client.LocalDatabase.{LocalDatabase, load_from_file, is_file_in_database, get_file}
use p2p_network.Client.Menu.{
  Client, Ending, quits, listens, terminates, misbehaves, repeats, out_of_fuel, Round, again, over,
  Choice, add, create, download, listen, quit, other, choice_of, loaded_list, add_list, created,
  create_file, manager_of, download_found, request_download, request_failed, choose, chosen,
  next_round, menu_round, run_menu,
}

-- The choices after which the menu may go on.
abbrev pub GoesOn : ℤ → Type 0
GoesOn n = (n ≢ pos 4) × (n ≢ pos 5)

-- The choices that ask for a name.
abbrev pub AsksName : ℤ → Type 0
AsksName n = (n ≡ pos 1) ⊎ ((n ≡ pos 2) ⊎ (n ≡ pos 3))

AsksName-GoesOn : (n : ℤ) → AsksName n → GoesOn n
AsksName-GoesOn n (inl one) = rw one ((λ e. cc), (λ e. cc))
AsksName-GoesOn n (inr (inl two)) = rw two ((λ e. cc), (λ e. cc))
AsksName-GoesOn n (inr (inr three)) = rw three ((λ e. cc), (λ e. cc))

-- The number that stands for a choice.
Means : ℤ → Choice → Type 0
Means n add = n ≡ pos 1
Means n create = n ≡ pos 2
Means n download = n ≡ pos 3
Means n listen = n ≡ pos 4
Means n quit = n ≡ pos 5
Means n other = GoesOn n

choice_of-Means : (n : ℤ) → Means n (choice_of n)
unfolding choice_of Means
choice_of-Means (negsuc n) = (λ e. cc, λ e. cc)
choice_of-Means (pos n) = elim (Bool-cases (n == 1)) [
  | inl e1 ↦ rw e1 (ap pos ((==_iff n 1).0 e1))
  | inr e1 ↦ elim (Bool-cases (n == 2)) [
    | inl e2 ↦ rw (e1, e2) (ap pos ((==_iff n 2).0 e2))
    | inr e2 ↦ elim (Bool-cases (n == 3)) [
      | inl e3 ↦ rw (e1, e2, e3) (ap pos ((==_iff n 3).0 e3))
      | inr e3 ↦ elim (Bool-cases (n == 4)) [
        | inl e4 ↦ rw (e1, e2, e3, e4) (ap pos ((==_iff n 4).0 e4))
        | inr e4 ↦ elim (Bool-cases (n == 5)) [
          | inl e5 ↦ rw (e1, e2, e3, e4, e5) (ap pos ((==_iff n 5).0 e5))
          | inr e5 ↦
              rw (e1, e2, e3, e4, e5) (λ h. ground (arith, h, e4), λ h. ground (arith, h, e5))
        ]
      ]
    ]
  ]
]

module _ (read_int : Text → Option (ℤ × Text)) (read_word : Text → Option (Text × Text))
    (calls : ListenCalls) where
  -- What the menu ended with, if it was last entered with the client `c`.
  abbrev pub EndsWith : Client → Ending → Type 0
  -- The number 5 was read.
  EndsWith c (quits c') =
      (left : Text) × (read_int c.input ≡ some (pos 5, left)) × (c' ≡ record c { input = left })
  -- The number 4 was read, and the client listens.
  EndsWith c (listens c' l) =
      (left : Text) × (read_int c.input ≡ some (pos 4, left))
      × (c' ≡ record c { input = left })
      × (l ≡ conn_listen calls)
  -- The number 3 was read, and the name of a torrent file whose torrent is in the database.
  EndsWith c (terminates c') =
      (left : Text) × (name : Text) × (rest : Text) × (t : Torrent) × (read_int c.input
        ≡ some (pos 3, left))
      × (read_word left ≡ some (name, rest))
      × (of_file c.disk name ≡ some t)
      × (is_file_in_database c.database.files t ≡ true)
      × (c' ≡ record c { input = rest; started = c.started ++ t ∷ [] })
  -- No number could be read, or no name after 1, 2 or 3.
  EndsWith c (repeats c') =
      (read_int c.input ≡ none)
      ⊎ ((n : ℤ) × (left : Text) × (read_int c.input ≡ some (n, left))
          × AsksName n
          × (read_word left ≡ none))
  EndsWith c misbehaves = (n : ℤ) × (left : Text) × (read_int c.input ≡ some (n, left)) × AsksName n
  EndsWith c out_of_fuel = ⊥

  -- From one round to the next: a number but 4 and 5 was read, no download was started, and the input is
  -- shorter.
  abbrev pub RoundTo : Client → Client → Type 0
  RoundTo c c' =
      (n : ℤ) × (left : Text) × (read_int c.input ≡ some (n, left))
      × GoesOn n
      × (c'.started ≡ c.started)
      × (length c'.input < length c.input)

  -- Rounds that lead from a client to an ending.
  pub data Rounds (e : Ending) : Client → Type 0 where
    last : (c : Client) → EndsWith c e → Rounds e c
    more : (c c' : Client) → RoundTo c c' → Rounds e c' → Rounds e c

  Follows : Client → Round → Type 0
  Follows c (again c') = RoundTo c c'
  Follows c (over e) = EndsWith c e

  -- A round in which the number `n` was read that asks for a name.
  module _ (c : Client) (n : ℤ) (left : Text) (number : read_int c.input ≡ some (n, left))
      (asks : AsksName n) (less : length left < length c.input) where
    bad : EndsWith c misbehaves
    bad = (n, left, number, asks)

    module _ (name rest : Text) (word : read_word left ≡ some (name, rest))
        (shorter : length rest ≤ length left) where
      loaded-Follows :
          (o : Outcome LocalDatabase ℕ) → Follows c (loaded_list (record c { input = rest }) o)
      unfolding loaded_list Follows
      loaded-Follows (returns r db) = (n, left, number, AsksName-GoesOn n asks, refl, omega arith)
      loaded-Follows (throws db) = bad
      loaded-Follows undefined = bad
      loaded-Follows unfinished = bad

      created-Follows :
          (o : Outcome FileManager (Unit {0})) → Follows c (created (record c { input = rest }) o)
      unfolding created Follows
      created-Follows (returns r fm) = (n, left, number, AsksName-GoesOn n asks, refl, omega arith)
      created-Follows (throws fm) = bad
      created-Follows undefined = bad
      created-Follows unfinished = bad

      create_file-Follows :
          (t : Option Torrent) → Follows c (create_file (record c { input = rest }) t)
      unfolding create_file Follows
      create_file-Follows none = bad
      create_file-Follows (some t) =
          created-Follows (create_local_file (c.disk.writable t.file_name) t (manager_of c.disk))

      download-Follows :
          (t : Option Torrent)
          → n ≡ pos 3
          → of_file c.disk name ≡ t
          → Follows c (request_download (record c { input = rest }) t)
      unfolding request_download Follows
      download-Follows none three made = bad
      download-Follows (some t) three made =
          elim (Bool-cases (is_file_in_database c.database.files t)) [
            | inl known ↦ rw known (found (get_file c.database.files (id_of_hash t.hashed)) known)
            | inr unknown ↦ rw unknown (n, left, number, AsksName-GoesOn n asks, refl, omega arith)
          ]
        where
          found :
              (f : Option File)
              → is_file_in_database c.database.files t ≡ true
              → Follows c (download_found (record c { input = rest }) t f)
          found none known = bad
          found (some f) known = (
            left,
            name,
            rest,
            t,
            number ∙ ap (λ x. some (x, left)) three,
            word,
            made,
            known,
            refl,
          )

    failed-Follows :
        (t : Option Torrent)
        → read_word left ≡ none
        → Follows c (request_failed (record c { input = left }) t)
    unfolding request_failed Follows
    failed-Follows none unread = bad
    failed-Follows (some t) unread = inr (n, left, number, asks, unread)

  -- What `std::cin` does: each extraction takes characters off the front, that of a number one at least.
  abbrev TakesOff : Type 0
  TakesOff =
      ((s : Text) (n : ℤ) (rest : Text) → read_int s ≡ some (n, rest) → length rest < length s)
      × ((s word rest : Text) → read_word s ≡ some (word, rest) → length rest ≤ length s)

  module _ (takes_off : TakesOff) (c : Client) (n : ℤ) (left : Text)
      (number : read_int c.input ≡ some (n, left)) where
    less : length left < length c.input
    less = takes_off.0 c.input n left number

    choose-Follows :
        (k : Choice) (r : Option (Text × Text))
        → Means n k
        → read_word left ≡ r
        → Follows c (choose read_int read_word calls (record c { input = left }) k)
    unfolding choose Follows Means add_list less
    choose-Follows add none one word = rw word (inr (n, left, number, inl one, word))
    choose-Follows add (some (name, rest)) one word = rw word (
        loaded-Follows c n left number (inl one) less name rest word
          (takes_off.1 left name rest word) (load_from_file c.disk name c.database))
    choose-Follows create none two word = rw word (inr (n, left, number, inr (inl two), word))
    choose-Follows create (some (name, rest)) two word = rw word (
        create_file-Follows c n left number (inr (inl two)) less name rest word
          (takes_off.1 left name rest word) (of_file c.disk name))
    choose-Follows download none three word =
        rw word (failed-Follows c n left number (inr (inr three)) less (of_file c.disk []) word)
    choose-Follows download (some (name, rest)) three word = rw word (
        download-Follows c n left number (inr (inr three)) less name rest word
          (takes_off.1 left name rest word) (of_file c.disk name) three refl)
    choose-Follows listen r four word = (left, number ∙ ap (λ x. some (x, left)) four, refl, refl)
    choose-Follows quit r five word = (left, number ∙ ap (λ x. some (x, left)) five, refl)
    choose-Follows other r neither word = (n, left, number, neither, refl, less)

  menu_round-Follows : TakesOff → (c : Client) → Follows c (menu_round read_int read_word calls c)
  unfolding menu_round Follows
  menu_round-Follows takes_off c = read (read_int c.input) refl
    where
      read :
          (r : Option (ℤ × Text))
          → read_int c.input ≡ r
          → Follows c (chosen read_int read_word calls c r)
      read none unread = inl unread
      read (some (n, left)) number =
          choose-Follows takes_off c n left number (choice_of n) (read_word left)
            (choice_of-Means n) refl

  next_round-Rounds :
      (c : Client) (r : Round) (menu : Client → Ending)
      → Follows c r
      → ((c' : Client) → length c'.input < length c.input → Rounds (menu c') c')
      → Rounds (next_round read_int read_word calls menu r) c
  unfolding next_round Follows
  next_round-Rounds c (again c') menu follows later = more c c' follows (later c' follows.5)
  next_round-Rounds c (over e) menu follows later = last c follows

  run_menu-TakesOff :
      TakesOff
      → (fuel : ℕ) (c : Client) → length c.input < fuel
      → Rounds (run_menu read_int read_word calls fuel c) c
  unfolding run_menu
  run_menu-TakesOff takes_off zero c enough = absurd (omega arith)
  run_menu-TakesOff takes_off (suc fuel) c enough =
      next_round-Rounds c (menu_round read_int read_word calls c)
        (run_menu read_int read_word calls fuel) (menu_round-Follows takes_off c)
        (λ c' shorter. run_menu-TakesOff takes_off fuel c' (omega arith))

  -- If an extraction takes characters off the front of the input, that of a number one at least, then one
  -- unit of fuel more than the input has characters is enough for the menu: it goes through rounds, in
  -- each of which a number but 4 and 5 is read and no download starts, to a last one. There it quits, where
  -- 5 is read; listens, where 4 is read; terminates with the one download that it starts, where 3 and the
  -- name of a torrent file are read whose torrent is in the database; repeats its question for ever, where
  -- no number is read, or one of 1, 2 and 3 and then no name; or its behaviour is undefined, after one of
  -- 1, 2 and 3.
  pub run_menu-Rounds :
      ((s : Text) (n : ℤ) (rest : Text) → read_int s ≡ some (n, rest) → length rest < length s)
      → ((s word rest : Text) → read_word s ≡ some (word, rest) → length rest ≤ length s)
      → (fuel : ℕ) (c : Client) → length c.input < fuel
      → Rounds (run_menu read_int read_word calls fuel c) c
  run_menu-Rounds int_shorter word_shorter = run_menu-TakesOff (int_shorter, word_shorter)
