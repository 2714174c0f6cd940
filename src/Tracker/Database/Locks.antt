-- ===== src/Tracker/Database/Locks.antt =====
-- server/database/Database.cpp: which calls give the mutex back, and the one that cannot.
use p2p_network.Base.{ℕ, suc, ◌≡◌, arith, reject, select, Text, returns, undefined}
use p2p_network.Shared.Torrent.{Torrent}
use p2p_network.Tracker.ClientInfo.{ClientInfo, has_torrent, client_eq}
use p2p_network.Tracker.Database.{
  Database, free, update_or_append, add_or_update_client, add_to_copy, add_torrent_to_client,
  delete_client, get_clients, unique_in, is_hash_unique, get_clients_with, contains_torrent,
  database_has_torrent, add_torrent_to_database,
}

-- Called while nobody holds the mutex, the four queries return what their scan finds and leave the
-- database as it was, the mutex released.
pub queries_return :
    (db : Database) (hash : ℕ) (t : Torrent)
    → db.mutex ≡ free
    → (get_clients db ≡ returns db.clients db)
      × (is_hash_unique hash db ≡ returns (unique_in db.torrents hash) db)
      × (get_clients_with hash db ≡ returns (select (λ c. has_torrent c hash) db.clients) db)
      × (database_has_torrent t db ≡ returns (contains_torrent db.torrents t) db)
unfolding get_clients is_hash_unique get_clients_with database_has_torrent
queries_return db hash t e = ground arith

-- Called while nobody holds the mutex, the three updates of the clients return, change the clients
-- alone, and release the mutex.
pub updates_return :
    (db : Database) (client : ClientInfo) (t : Torrent)
    → db.mutex ≡ free
    → (add_or_update_client client db
        ≡ returns tt (record db { clients = update_or_append db.clients client }))
      × (add_torrent_to_client client t db
          ≡ returns tt (record db { clients = (add_to_copy db.clients client t).0 }))
      × (delete_client client db
          ≡ returns tt (record db { clients = reject (λ c. client_eq client c) db.clients }))
unfolding add_or_update_client add_torrent_to_client delete_client
updates_return db client t e = ground arith

-- `addTorrent` asks for the shared lock inside `isHashUnique` while it holds the exclusive one: its
-- behaviour is undefined for every torrent, every database and every state of the mutex.
pub add_torrent_to_database-undefined :
    (hash : Text → ℕ) (fuel : ℕ) (t : Torrent) (db : Database)
    → add_torrent_to_database hash (suc fuel) t db ≡ undefined
unfolding add_torrent_to_database
add_torrent_to_database-undefined hash fuel t db = ground arith
