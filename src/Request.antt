-- ===== src/Request.antt =====
-- model.AnnounceRequest of biz/model/http.go, with the fields of the HttpAnnounceRequest that it
-- embeds.
use trunker.Base.{ℕ, Option, List}
use trunker.Base.Bytes.{Bytes}
use trunker.Base.Int.{ℤ}
use trunker.Net.{IpAddr}
use trunker.Peer.{PeerType, Source, Offer}

pub record AnnounceRequest : Type 0 where
  pub client_ip : IpAddr
  pub info_hash : Bytes
  pub peer_id : Bytes
  pub event : Bytes
  pub user_agent : Bytes
  pub ip : Bytes
  pub ipv4 : Bytes
  pub ipv6 : Bytes
  pub port : ℤ
  pub uploaded : ℤ
  pub downloaded : ℤ
  pub left : ℤ
  pub num_want : ℤ
  pub type : PeerType
  pub compact : ℤ
  pub source : Source
  pub offers : List Offer
  pub conn : Option ℕ

pub record ScrapeFile : Type 0 where
  pub seeder : ℕ
  pub complete : ℕ
  pub incomplete : ℕ
  pub downloaded : ℕ
