-- ===== src/Tracker/ClientInfo.antt =====
-- server/database/ClientInfo.h: a client of the tracker and the torrents that it shares.
use p2p_network.Base.{
  ℕ, ◌≡◌, refl, Bool, true, false, not, ◌&&◌, ◌||◌, List, [], ◌∷◌, ◌++◌, arith, ◌==◌, if◌then◌else◌,
  reject,
}
use p2p_network.Shared.{IpAddress, address_eq}
use p2p_network.Shared.Torrent.{Torrent, torrent_eq}

pub record ClientInfo : Type 0 where
  pub is_ip_v4 : Bool
  pub address : IpAddress
  pub torrents : List Torrent

-- `ClientInfo(bool, IpAddress)`
abbrev pub new_client : Bool → IpAddress → ClientInfo
new_client is_ip_v4 address = record { is_ip_v4 = is_ip_v4; address = address; torrents = [] }

unfoldable pub set_torrents : ClientInfo → List Torrent → ClientInfo
set_torrents c ts = record c { torrents = ts }

-- `hasTorrent(Hash)`, a scan that stops at the first torrent of that hash.
unfoldable pub has_hash : List Torrent → ℕ → Bool
has_hash [] hash = false
has_hash (t ∷ ts) hash = if t.hashed == hash then true else has_hash ts hash

unfoldable pub has_torrent : ClientInfo → ℕ → Bool
unfolding has_hash
has_torrent c hash = has_hash c.torrents hash

unfoldable pub add_torrent : ClientInfo → Torrent → ClientInfo
add_torrent c t =
    if has_hash c.torrents t.hashed then c else record c { torrents = c.torrents ++ t ∷ [] }

unfoldable pub delete_file_to_share : ClientInfo → Torrent → ClientInfo
delete_file_to_share c t = record c { torrents = reject (λ u. torrent_eq u t) c.torrents }

-- `operator==` compares the address and the address family, not the torrents.
unfoldable pub client_eq : ClientInfo → ClientInfo → Bool
client_eq a b =
    address_eq a.address b.address && (if a.is_ip_v4 then b.is_ip_v4 else not b.is_ip_v4)

-- No two torrents of the list have the same hash.
abbrev pub HashesDiffer : List Torrent → Type 0
HashesDiffer [] = Unit
HashesDiffer (t ∷ ts) = (has_hash ts t.hashed ≡ false) × HashesDiffer ts

pub has_hash-append :
    (ts us : List Torrent) (hash : ℕ)
    → has_hash (ts ++ us) hash ≡ (has_hash ts hash || has_hash us hash)
unfolding has_hash
has_hash-append [] us hash = refl
has_hash-append (t ∷ ts) us hash = ground (arith, has_hash-append ts us hash)

pub HashesDiffer-snoc :
    (ts : List Torrent) (t : Torrent)
    → has_hash ts t.hashed ≡ false
    → HashesDiffer ts
    → HashesDiffer (ts ++ t ∷ [])
unfolding has_hash
HashesDiffer-snoc [] t h d = (refl, tt)
HashesDiffer-snoc (u ∷ ts) t h d = (
  ground (arith, has_hash-append ts (t ∷ []) u.hashed),
  HashesDiffer-snoc ts t (ground arith) d.1,
)

-- After `addTorrent` the client has the hash that was added and the hashes that it had, and no
-- others; its address stays; and the hashes of its torrents stay pairwise different.
pub has_torrent-add_torrent :
    (c : ClientInfo) (t : Torrent) (hash : ℕ)
    → HashesDiffer c.torrents
    → (has_torrent (add_torrent c t) hash ≡ (t.hashed == hash || has_torrent c hash))
      × ((add_torrent c t).address ≡ c.address)
      × HashesDiffer (add_torrent c t).torrents
unfolding has_torrent add_torrent
has_torrent-add_torrent c t hash d = (
  ground (arith, has_hash-append c.torrents (t ∷ []) hash),
  ground arith,
  ground (arith, HashesDiffer-snoc c.torrents t),
)
