-- ===== src/Tracker/Database/Copies.antt =====
-- server/database/Database.cpp: `addTorrentToClient` adds to copies of the clients.
use p2p_network.Base.{
  ℕ, ◌≡◌, refl, ap, ◌∙◌, inl, inr, Bool, false, List, [], ◌∷◌, ◌++◌, arith, if◌then◌else◌, any,
  select, Bool-cases, returns,
}
use p2p_network.Shared.{IpAddress, address_eq}
use p2p_network.Shared.Torrent.{Torrent}
use p2p_network.Tracker.ClientInfo.{ClientInfo, has_torrent}
use p2p_network.Tracker.Database.{
  Database, free, add_to_copy, add_torrent_to_client, get_clients_with,
}
use p2p_network.Tracker.Database.Locks.{updates_return, queries_return}

abbrev pub knows : List ClientInfo → IpAddress → Bool
knows cs a = any (λ c. address_eq c.address a) cs

-- The vector after the call: the copies take every torrent with them.
pub add_to_copy-clients :
    (cs : List ClientInfo) (client : ClientInfo) (t : Torrent)
    → (add_to_copy cs client t).0 ≡ (if knows cs client.address then cs else cs ++ client ∷ [])
unfolding add_to_copy
add_to_copy-clients [] client t = refl
add_to_copy-clients (c ∷ cs) client t = ground (arith, add_to_copy-clients cs client t)

select-append :
    (p : ClientInfo → Bool) (cs : List ClientInfo) (client : ClientInfo)
    → p client ≡ false
    → select p (cs ++ client ∷ []) ≡ select p cs
select-append p [] client h = rw h
select-append p (c ∷ cs) client h = ground (arith, select-append p cs client h)

pub select-add_to_copy :
    (cs : List ClientInfo) (client : ClientInfo) (t : Torrent) (hash : ℕ)
    → client.torrents ≡ []
    → select (λ c. has_torrent c hash) (add_to_copy cs client t).0
      ≡ select (λ c. has_torrent c hash) cs
unfolding has_torrent
select-add_to_copy cs client t hash h = elim (Bool-cases (knows cs client.address)) [
  | inl known ↦ rw (add_to_copy-clients cs client t, known)
  | inr new ↦
      rw (add_to_copy-clients cs client t, new)
        (select-append (λ c. has_torrent c hash) cs client (rw h))
]

-- A client that comes with no torrents, as the tracker's handlers make it, has none after
-- `addTorrentToClient` either: called while nobody holds the mutex it returns, and every search for
-- the clients that share a hash, that of the added torrent included, finds the same as before.
pub add_torrent_to_client-get_clients_with :
    (db : Database) (client : ClientInfo) (t : Torrent) (hash : ℕ)
    → db.mutex ≡ free
    → client.torrents ≡ []
    → (db' : Database) × (found : List ClientInfo) × (add_torrent_to_client client t db
        ≡ returns tt db')
      × (get_clients_with hash db ≡ returns found db)
      × (get_clients_with hash db' ≡ returns found db')
add_torrent_to_client-get_clients_with db client t hash e none_yet =
    let db' : Database = record db { clients = (add_to_copy db.clients client t).0 } in
    (
      db',
      select (λ c. has_torrent c hash) db.clients,
      (updates_return db client t e).1,
      (queries_return db hash t e).2,
      (queries_return db' hash t e).2
          ∙ ap (λ found. returns found db') (select-add_to_copy db.clients client t hash none_yet),
    )
