-- ===== src/Tracker/Responder/Frozen.antt =====
-- server/TrackerThread.cpp over any database: what the messages of a connection leave of it.
use mathlib.Core.Path.{fun_ext}
use p2p_network.Base.{
  ℕ, suc, ◌≡◌, ◌∙◌, refl, ap, true, false, Option, none, some, List, [], ◌∷◌, ◌++◌, arith, ◌==◌,
  select, Text, Outcome, Action, then_run, pure, ◌>>=◌, returns, undefined, Bool-cases, inl, inr,
}
use p2p_network.Shared.{IpAddress, address_eq, address_eq_refl, address_eq_iff}
use p2p_network.Shared.Message.{
  TcpCode, ok, cs_seedlist_request, cs_seedlist_response, cs_new_request, cs_im_a_seed, TcpMessage,
  Contents, SeedlistResponse, unset, seedlist_response, seedlist_request_hash, im_a_seed_hash,
}
use p2p_network.Shared.Connection.{Connection, Recv, received, ended, overwrite}
use p2p_network.Shared.Torrent.{Torrent, empty_torrent}
use p2p_network.Tracker.ClientInfo.{ClientInfo, new_client, has_torrent}
use p2p_network.Tracker.Database.{
  Database, free, add_to_copy, add_torrent_to_client, torrent_vector,
}
use p2p_network.Tracker.Database.AddressMap.{AddressesDiffer, find_client}
use p2p_network.Tracker.Database.Copies.{knows, add_to_copy-clients, select-add_to_copy}
use p2p_network.Tracker.Database.Locks.{queries_return, updates_return}
use p2p_network.Tracker.Responder.{
  seedlist_of, message, dispatch, serve, notify_first, handle_seed_notification, connected_address,
}
use p2p_network.Tracker.Responder.Replies.{handle_new_request-undefined, both}

abbrev pub sharing : Database → ℕ → List ClientInfo
sharing db hash = select (λ c. has_torrent c hash) db.clients

-- The torrents, and who shares which of them, are as they were; the mutex is free, and the addresses of
-- the clients stay different.
pub record Frozen (before after : Database) : Type 0 where
  pub torrents : after.torrents ≡ before.torrents
  pub released : after.mutex ≡ free
  pub seeds : (hash : ℕ) → sharing after hash ≡ sharing before hash
  pub differ : AddressesDiffer before.clients → AddressesDiffer after.clients

Frozen-refl : (db : Database) → db.mutex ≡ free → Frozen db db
Frozen-refl db e = record { torrents = refl; released = e; seeds = λ h. refl; differ = λ d. d }

Frozen-trans : {a b c : Database} → Frozen a b → Frozen b c → Frozen a c
Frozen-trans first rest = record {
  torrents = rest.torrents ∙ first.torrents;
  released = rest.released;
  seeds = λ h. rest.seeds h ∙ first.seeds h;
  differ = λ d. rest.differ (first.differ d);
}

apart : (a b : IpAddress) → address_eq b a ≡ false → address_eq a b ≡ false
apart a b h = elim (Bool-cases (address_eq a b)) [
  | inl same ↦ absurd (ground (arith, h, (address_eq_iff a b).0 same, address_eq_refl a))
  | inr other ↦ other
]

find_client-snoc :
    (cs : List ClientInfo) (client : ClientInfo) (a : IpAddress)
    → find_client a cs ≡ none
    → address_eq client.address a ≡ false
    → find_client a (cs ++ client ∷ []) ≡ none
find_client-snoc [] client a h e = rw e
find_client-snoc (c ∷ cs) client a h e = ground (arith, find_client-snoc cs client a)

AddressesDiffer-snoc :
    (cs : List ClientInfo) (client : ClientInfo)
    → knows cs client.address ≡ false
    → AddressesDiffer cs
    → AddressesDiffer (cs ++ client ∷ [])
AddressesDiffer-snoc [] client new d = (refl, tt)
AddressesDiffer-snoc (c ∷ cs) client new d = (
  find_client-snoc cs client c.address d.0 (apart client.address c.address (ground (arith, new))),
  AddressesDiffer-snoc cs client (ground (arith, new)) d.1,
)

add_to_copy-AddressesDiffer :
    (cs : List ClientInfo) (client : ClientInfo) (t : Torrent)
    → AddressesDiffer cs
    → AddressesDiffer (add_to_copy cs client t).0
add_to_copy-AddressesDiffer cs client t d = elim (Bool-cases (knows cs client.address)) [
  | inl known ↦ rw (add_to_copy-clients cs client t, known) d
  | inr new ↦ rw (add_to_copy-clients cs client t, new) (AddressesDiffer-snoc cs client new d)
]

-- A call that returns and keeps what is frozen.
Keeps : Database → Outcome Database (Unit {0}) → Type 0
Keeps db o = (db' : Database) × (o ≡ returns tt db') × Frozen db db'

add_torrent_to_client-Keeps :
    (db : Database) (a : IpAddress) (t : Torrent)
    → db.mutex ≡ free
    → Keeps db (add_torrent_to_client (new_client true a) t db)
unfolding Keeps
add_torrent_to_client-Keeps db a t e = (
  record db { clients = (add_to_copy db.clients (new_client true a) t).0 },
  (updates_return db (new_client true a) t e).1,
  record {
    torrents = refl;
    released = e;
    seeds = λ hash. select-add_to_copy db.clients (new_client true a) t hash refl;
    differ = add_to_copy-AddressesDiffer db.clients (new_client true a) t;
  },
)

notify_first-Keeps :
    (ts : List Torrent) (db : Database) (a : IpAddress) (hash : ℕ)
    → db.mutex ≡ free
    → Keeps db (notify_first ts (new_client true a) hash db)
unfolding notify_first Keeps
notify_first-Keeps [] db a hash e = (db, refl, Frozen-refl db e)
notify_first-Keeps (t ∷ ts) db a hash e = elim (Bool-cases (t.hashed == hash)) [
  | inl this ↦ rw this (add_torrent_to_client-Keeps db a t e)
  | inr other ↦ rw other (notify_first-Keeps ts db a hash e)
]

-- The answer to a message, with the lists of seeds as they were once.
abbrev pub fixed_reply : (ℕ → SeedlistResponse) → TcpCode → Contents → Option (List TcpMessage)
fixed_reply seeds ok contents = some (message ok unset ∷ [])
fixed_reply seeds cs_seedlist_request contents =
    some (
      message cs_seedlist_response (seedlist_response (seeds (seedlist_request_hash contents)))
      ∷ [])
fixed_reply seeds cs_new_request contents = none
fixed_reply seeds _ contents = some []

abbrev pub fixed_replies :
    (ℕ → SeedlistResponse) → (List ℕ → TcpMessage) → List ℕ → List Recv → Option (List TcpMessage)
fixed_replies seeds parse buf [] = some []
fixed_replies seeds parse buf (ended ∷ rest) = some []
fixed_replies seeds parse buf (received bytes ∷ rest) =
    let msg = parse (overwrite buf bytes) in
    both (fixed_reply seeds msg.code msg.contents)
      (fixed_replies seeds parse (overwrite buf bytes) rest)

abbrev pub outcome_in : Database → Option (List TcpMessage) → Outcome Database (List TcpMessage)
outcome_in db none = undefined
outcome_in db (some sent) = returns sent db

outcome_in-both :
    (o later : Option (List TcpMessage)) (first : Outcome Database (List TcpMessage))
    (next : Action Database (List TcpMessage)) (mid db : Database)
    → first ≡ outcome_in mid o
    → next mid ≡ outcome_in db later
    → then_run first (λ sent. do rest ← next; pure (sent ++ rest)) ≡ outcome_in db (both o later)
outcome_in-both none later first next mid db e e' = rw e refl
outcome_in-both (some sent) none first next mid db e e' = rw (e, e') refl
outcome_in-both (some sent) (some more) first next mid db e e' = rw (e, e') refl

abbrev pub seeds_of : Database → ℕ → SeedlistResponse
seeds_of db hash = seedlist_of (sharing db hash)

module _ (hash : Text → ℕ) (fuel : ℕ) where
  dispatch-fixed :
      (code : TcpCode) (conn : Connection) (contents : Contents) (db : Database)
      → db.mutex ≡ free
      → (db' : Database) × (dispatch hash (suc fuel) code conn contents db
          ≡ outcome_in db' (fixed_reply (seeds_of db) code contents))
        × Frozen db db'
  unfolding dispatch handle_seed_notification torrent_vector Keeps
  dispatch-fixed ok conn contents db e = (db, refl, Frozen-refl db e)
  dispatch-fixed cs_seedlist_request conn contents db e =
      let asked = seedlist_request_hash contents in
      (db, rw (queries_return db asked empty_torrent e).2 refl, Frozen-refl db e)
  dispatch-fixed cs_new_request conn contents db e =
      (db, handle_new_request-undefined hash fuel conn contents db, Frozen-refl db e)
  dispatch-fixed cs_im_a_seed conn contents db e =
      let (db', run, frozen) =
        notify_first-Keeps db.torrents db (connected_address conn) (im_a_seed_hash contents) e in
      (db', rw run, frozen)
  dispatch-fixed _ conn contents db e = (db, refl, Frozen-refl db e)

  -- Whatever messages a connection brings to a tracker whose mutex is free, the tracker sends what a
  -- description without any state sends that answers every request for seeds from the clients that shared
  -- the torrent at the start; and if there is a request for a new torrent, its behaviour is undefined. The
  -- torrents of the tracker stay, and so does who shares which of them: no message makes a client a seed.
  -- The mutex is free again, and the addresses of the clients stay different.
  pub serve-fixed_replies :
      (parse : List ℕ → TcpMessage) (conn : Connection) (buf : List ℕ) (events : List Recv)
      (db : Database)
      → db.mutex ≡ free
      → (db' : Database) × (serve hash (suc fuel) parse conn buf events db
          ≡ outcome_in db' (fixed_replies (seeds_of db) parse buf events))
        × Frozen db db'
  unfolding serve
  serve-fixed_replies parse conn buf [] db e = (db, refl, Frozen-refl db e)
  serve-fixed_replies parse conn buf (ended ∷ rest) db e = (db, refl, Frozen-refl db e)
  serve-fixed_replies parse conn buf (received bytes ∷ rest) db e =
      let buf' = overwrite buf bytes in
      let msg = parse buf' in
      let (mid, run, frozen) = dispatch-fixed msg.code conn msg.contents db e in
      let (db', later, frozen') = serve-fixed_replies parse conn buf' rest mid frozen.released in
      let same : seeds_of mid ≡ seeds_of db = fun_ext (λ h. ap seedlist_of (frozen.seeds h)) in
      (
        db',
        outcome_in-both (fixed_reply (seeds_of db) msg.code msg.contents)
            (fixed_replies (seeds_of db) parse buf' rest)
            (dispatch hash (suc fuel) msg.code conn msg.contents db)
            (serve hash (suc fuel) parse conn buf' rest) mid db' run (rw same at later),
        Frozen-trans frozen frozen',
      )
