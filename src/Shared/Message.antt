-- ===== src/Shared/Message.antt =====
-- shared/protoc/TcpMessage.proto: the messages. The generated classes are read through their fields:
-- a field of `contents` that is not set reads as the default of its type, as protobuf documents.
use p2p_network.Base.{ℕ, List, [], Text}

pub data TcpCode : Type 0 where
  connerror unknown_error ok : TcpCode
  cs_seedlist_request cs_seedlist_response cs_client_unavailable cs_im_a_seed : TcpCode
  cc_list_request cc_list_response cc_fragment_request cc_fragment_response : TcpCode
  cs_new_request cs_new_response : TcpCode

pub data FileCode : Type 0 where
  f_error f_deny f_no_file f_frag_missing f_frag_complete f_fine : FileCode

pub record TorrentMessage : Type 0 where
  pub hashed : ℕ
  pub size : ℕ
  pub file_name : Text

pub record IpPort : Type 0 where
  pub ip : Text
  pub port : ℕ

pub record SeedlistResponse : Type 0 where
  pub hashed_torrent : ℕ
  pub ipv4_seeds : List IpPort
  pub ipv4_peers : List IpPort
  pub ipv6_seeds : List IpPort
  pub ipv6_peers : List IpPort

pub record ListResponse : Type 0 where
  pub hashed_torrent : ℕ
  pub file_code : FileCode
  pub fragments : List ℕ

pub record FragmentResponse : Type 0 where
  pub hashed_torrent : ℕ
  pub frag_num : ℕ
  pub file_code : FileCode
  pub fragment : Text

pub data Contents : Type 0 where
  unset : Contents
  seedlist_request : (hashed_torrent : ℕ) → Contents
  seedlist_response : SeedlistResponse → Contents
  client_unavailable : (ipv4 ipv6 : List Text) → Contents
  im_a_seed : (hashed_torrent receiver_port : ℕ) → Contents
  new_request : TorrentMessage → (receiver_port : ℕ) → Contents
  new_response : FileCode → (new_hash : ℕ) → Contents
  list_request : (hashed_torrent : ℕ) → Contents
  list_response : ListResponse → Contents
  fragment_request : (hashed_torrent frag_num : ℕ) → Contents
  fragment_response : FragmentResponse → Contents

pub record TcpMessage : Type 0 where
  pub code : TcpCode
  pub contents : Contents

abbrev pub no_seeds : SeedlistResponse
no_seeds = record {
  hashed_torrent = 0;
  ipv4_seeds = [];
  ipv4_peers = [];
  ipv6_seeds = [];
  ipv6_peers = [];
}

abbrev pub no_fragments : ListResponse
no_fragments = record { hashed_torrent = 0; file_code = f_error; fragments = [] }

abbrev pub no_fragment : FragmentResponse
no_fragment = record { hashed_torrent = 0; frag_num = 0; file_code = f_error; fragment = [] }

abbrev pub no_torrent : TorrentMessage
no_torrent = record { hashed = 0; size = 0; file_name = [] }

abbrev pub seedlist_request_hash : Contents → ℕ
seedlist_request_hash (seedlist_request h) = h
seedlist_request_hash _ = 0

abbrev pub seedlist_response_of : Contents → SeedlistResponse
seedlist_response_of (seedlist_response r) = r
seedlist_response_of _ = no_seeds

abbrev pub im_a_seed_hash : Contents → ℕ
im_a_seed_hash (im_a_seed h p) = h
im_a_seed_hash _ = 0

abbrev pub new_request_torrent : Contents → TorrentMessage
new_request_torrent (new_request t p) = t
new_request_torrent _ = no_torrent

abbrev pub new_response_hash : Contents → ℕ
new_response_hash (new_response c h) = h
new_response_hash _ = 0

abbrev pub list_request_hash : Contents → ℕ
list_request_hash (list_request h) = h
list_request_hash _ = 0

abbrev pub list_response_of : Contents → ListResponse
list_response_of (list_response r) = r
list_response_of _ = no_fragments

abbrev pub fragment_request_hash : Contents → ℕ
fragment_request_hash (fragment_request h n) = h
fragment_request_hash _ = 0

abbrev pub fragment_request_num : Contents → ℕ
fragment_request_num (fragment_request h n) = n
fragment_request_num _ = 0

abbrev pub fragment_response_of : Contents → FragmentResponse
fragment_response_of (fragment_response r) = r
fragment_response_of _ = no_fragment
