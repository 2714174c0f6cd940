-- ===== src/Tracker/Database/AddressMap.antt =====
-- server/database/Database.cpp: the vector of clients as a map from addresses to clients.
use p2p_network.Base.{
  ◌≡◌, refl, Option, none, some, List, [], ◌∷◌, arith, if◌then◌else◌, text_eq_iff, returns,
}
use p2p_network.Shared.{IpAddress, address_eq}
use p2p_network.Shared.Torrent.{empty_torrent}
use p2p_network.Tracker.ClientInfo.{ClientInfo, set_torrents, client_eq}
use p2p_network.Tracker.Database.{Database, free, update_or_append, add_or_update_client}
use p2p_network.Tracker.Database.Locks.{updates_return}

-- The first client at an address.
abbrev pub find_client : IpAddress → List ClientInfo → Option ClientInfo
find_client a [] = none
find_client a (c ∷ cs) = if address_eq c.address a then some c else find_client a cs

-- No two clients have the same address.
abbrev pub AddressesDiffer : List ClientInfo → Type 0
AddressesDiffer [] = Unit
AddressesDiffer (c ∷ cs) = (find_client c.address cs ≡ none) × AddressesDiffer cs

-- The client that stands at an address after `addOrUpdateClient`: an old client keeps its address
-- family and takes the new torrents.
abbrev pub updated : ClientInfo → Option ClientInfo → ClientInfo
updated client none = client
updated client (some c) = record c { torrents = client.torrents }

abbrev pub kept : ClientInfo → Option ClientInfo → Option ClientInfo
kept client none = none
kept client (some c) = if client_eq client c then none else some c

pub find-update_or_append :
    (cs : List ClientInfo) (client : ClientInfo) (a : IpAddress)
    → find_client a (update_or_append cs client) ≡ (
        if address_eq client.address a
        then some (updated client (find_client a cs))
        else find_client a cs)
unfolding update_or_append set_torrents
find-update_or_append [] client a = refl
find-update_or_append (c ∷ cs) client a = ground (
  arith,
  find-update_or_append cs client a,
  text_eq_iff client.address.ip c.address.ip,
  text_eq_iff client.address.ip a.ip,
  text_eq_iff c.address.ip a.ip,
)

update_or_append-AddressesDiffer :
    (cs : List ClientInfo) (client : ClientInfo)
    → AddressesDiffer cs
    → AddressesDiffer (update_or_append cs client)
unfolding update_or_append set_torrents
update_or_append-AddressesDiffer [] client d = (refl, tt)
update_or_append-AddressesDiffer (c ∷ cs) client d =
    ground
      (arith, find-update_or_append cs client c.address, update_or_append-AddressesDiffer cs client)

-- Called on a database with distinct addresses while nobody holds the mutex, `addOrUpdateClient`
-- releases it and leaves the torrents of the tracker alone. At the client's address there then
-- stands the client, or the old client there with the new torrents; every other address has the
-- client that it had; and the addresses stay distinct.
pub add_or_update_client-Updates :
    (db : Database) (client : ClientInfo)
    → db.mutex ≡ free
    → AddressesDiffer db.clients
    → (db' : Database) × (add_or_update_client client db ≡ returns tt db')
      × ((a : IpAddress)
          → find_client a db'.clients ≡ (
              if address_eq client.address a
              then some (updated client (find_client a db.clients))
              else find_client a db.clients))
      × AddressesDiffer db'.clients
      × (db'.torrents ≡ db.torrents)
      × (db'.mutex ≡ free)
add_or_update_client-Updates db client e d = (
  record db { clients = update_or_append db.clients client },
  (updates_return db client empty_torrent e).0,
  find-update_or_append db.clients client,
  update_or_append-AddressesDiffer db.clients client d,
  refl,
  e,
)
