-- ===== src/Tracker/Database.antt =====
-- server/database/Database.h and Database.cpp: the tracker's database, with the `std::shared_mutex`
-- as the thread that makes the calls sees it. A lock that this thread asks for while it holds the
-- mutex is undefined behaviour, as is the release of one that it does not hold; while another
-- thread holds the mutex the call waits, so that the calls of several threads come one after another.
pub mod Locks
pub mod AddressMap
pub mod Copies
use p2p_network.Base.{
  ℕ, zero, suc, ◌+◌, ◌%◌, ◌^◌, Bool, true, false, List, [], ◌∷◌, ◌++◌, ◌==◌, if◌then◌else◌, reject,
  select, Text, returns, undefined, unfinished, Action, then_run, ◌>>=◌, ◌>>◌, pure,
}
use p2p_network.Shared.{address_eq}
use p2p_network.Shared.Torrent.{Torrent, gen_default_hash, gen_salted_hash, torrent_eq}
use p2p_network.Tracker.ClientInfo.{ClientInfo, set_torrents, has_torrent, add_torrent, client_eq}

pub data Mutex : Type 0 where
  free exclusive shared : Mutex

pub record Database : Type 0 where
  pub clients : List ClientInfo
  pub torrents : List Torrent
  pub mutex : Mutex

abbrev pub empty_database : Database
empty_database = record { clients = []; torrents = []; mutex = free }

-- The four calls of `std::shared_mutex`.
lock : Action Database (Unit {0})
lock db = elim db.mutex [ free ↦ returns tt (record db { mutex = exclusive }) | _ ↦ undefined ]

unlock : Action Database (Unit {0})
unlock db = elim db.mutex [ exclusive ↦ returns tt (record db { mutex = free }) | _ ↦ undefined ]

lock_shared : Action Database (Unit {0})
lock_shared db = elim db.mutex [ free ↦ returns tt (record db { mutex = shared }) | _ ↦ undefined ]

unlock_shared : Action Database (Unit {0})
unlock_shared db = elim db.mutex [
  | shared ↦ returns tt (record db { mutex = free })
  | _ ↦ undefined
]

gets {ℓ} : {A : Type ℓ} → (Database → A) → Action Database A
gets f db = returns (f db) db

modify : (Database → Database) → Action Database (Unit {0})
modify f db = returns tt (f db)

-- The loop of `addOrUpdateClient`, and the `emplace_back` behind it.
unfoldable pub update_or_append : List ClientInfo → ClientInfo → List ClientInfo
update_or_append [] client = client ∷ []
update_or_append (c ∷ cs) client =
    if address_eq client.address c.address
    then set_torrents c client.torrents ∷ cs
    else c ∷ update_or_append cs client

unfoldable pub add_or_update_client : ClientInfo → Action Database (Unit {0})
unfolding lock unlock modify update_or_append
add_or_update_client client = do
  lock
  modify (λ db. record db { clients = update_or_append db.clients client })
  unlock

-- The loop of `addTorrentToClient` runs over copies, `for (auto c : clients)`, and what it adds to
-- goes to a copy behind the loop as well, `ClientInfo ci = clients.emplace_back(clientInfo)`: the
-- pair is the vector afterwards and the copy that has the torrent, which is then destroyed.
unfoldable pub add_to_copy : List ClientInfo → ClientInfo → Torrent → List ClientInfo × ClientInfo
add_to_copy [] client t = (client ∷ [], add_torrent client t)
add_to_copy (c ∷ cs) client t =
    let (rest, copy) = add_to_copy cs client t in
    if address_eq c.address client.address then (c ∷ cs, add_torrent c t) else (c ∷ rest, copy)

unfoldable pub add_torrent_to_client : ClientInfo → Torrent → Action Database (Unit {0})
unfolding lock unlock modify add_to_copy
add_torrent_to_client client t = do
  lock
  modify (λ db. record db { clients = (add_to_copy db.clients client t).0 })
  unlock

-- `remove_if` and `erase`; the sizes that are compared serve the log alone.
unfoldable pub delete_client : ClientInfo → Action Database (Unit {0})
unfolding lock unlock modify
delete_client client = do
  lock
  modify (λ db. record db { clients = reject (λ compared. client_eq client compared) db.clients })
  unlock

unfoldable pub get_clients : Action Database (List ClientInfo)
unfolding lock_shared unlock_shared gets
get_clients = do lock_shared; result ← gets (λ db. db.clients); unlock_shared; pure result

unfoldable pub unique_in : List Torrent → ℕ → Bool
unique_in [] hash = true
unique_in (t ∷ ts) hash = if t.hashed == hash then false else unique_in ts hash

unfoldable pub is_hash_unique : ℕ → Action Database Bool
unfolding lock_shared unlock_shared gets unique_in
is_hash_unique hash = do
  lock_shared
  result ← gets (λ db. unique_in db.torrents hash)
  unlock_shared
  pure result

-- `getClientsWith(Hash)`; `getClientsWith(Torrent)` is the same search for the torrent's hash.
unfoldable pub get_clients_with : ℕ → Action Database (List ClientInfo)
unfolding lock_shared unlock_shared gets
get_clients_with hash = do
  lock_shared
  result ← gets (λ db. select (λ c. has_torrent c hash) db.clients)
  unlock_shared
  pure result

unfoldable pub get_clients_with_torrent : Torrent → Action Database (List ClientInfo)
unfolding get_clients_with
get_clients_with_torrent t = get_clients_with t.hashed

unfoldable pub contains_torrent : List Torrent → Torrent → Bool
contains_torrent [] t = false
contains_torrent (u ∷ us) t = if torrent_eq u t then true else contains_torrent us t

unfoldable pub database_has_torrent : Torrent → Action Database Bool
unfolding lock_shared unlock_shared gets contains_torrent
database_has_torrent t = do
  lock_shared
  result ← gets (λ db. contains_torrent db.torrents t)
  unlock_shared
  pure result

-- `torrentVector` hands the vector out with no lock.
unfoldable pub torrent_vector : Action Database (List Torrent)
unfolding gets
torrent_vector = gets (λ db. db.torrents)

module _ (hash : Text → ℕ) where
  -- The loop of `addTorrent`, which holds the mutex; `salt` is a `uint32_t`.
  unfoldable pub salt_loop : ℕ → Torrent → ℕ → Action Database Torrent
  unfolding is_hash_unique
  salt_loop zero t salt db = unfinished
  salt_loop (suc fuel) t salt db = then_run (is_hash_unique t.hashed db) λ is_unique db'.
      elim is_unique [
        | true ↦ returns t db'
        | false ↦ salt_loop fuel (gen_salted_hash hash t salt) ((salt + 1) % 2 ^ 32) db'
      ]

  -- `addTorrent` takes its torrent by value; the caller learns the hash alone.
  unfoldable pub add_torrent_to_database : ℕ → Torrent → Action Database ℕ
  unfolding lock unlock modify salt_loop
  add_torrent_to_database fuel t = do
    lock
    named ← salt_loop fuel (gen_default_hash hash t) 1
    modify (λ db. record db { torrents = db.torrents ++ named ∷ [] })
    unlock
    pure named.hashed
