-- ===== src/Ban.antt =====
-- biz/services/peer/mux_local/ban: what is banned. `Item` is item.go, `IpFilter` is the filter of
-- ip_filter.go that every platform has, and this file is manager.go. Its methods Close and
-- GetIPFilterStats are not modelled.
pub mod Hex
pub mod Item
pub mod IpFilter
pub mod Kept
mod Tests
use trunker.Base.{
  ℕ, zero, suc, ◌+◌, ◌-◌, ◌*◌, ◌/◌, ◌%◌, ◌^◌, ◌≤◌, ◌<◌, min, ◌≡◌, refl, sym, ap, ap₂, ◌∙◌, ◌≢◌, ◌↔◌,
  ◌⊎◌, inl, inr, Bool, true, false, not, ◌&&◌, ◌||◌, Option, none, some, List, [], ◌∷◌, ◌++◌, map,
  arith, ltb, leb, ◌==◌, if◌then◌else◌, ltb→lt, lt→ltb, leb→le, ==_iff, tests, Bool-cases,
  Option-cases, is_some, get_or_else, or_else, length, take, drop, replicate, All, filter, count,
  length-append, All-append, take-append, drop-append, filter_skip, filter_add, length-take,
  length-drop, count-append,
}
use trunker.Base.Bytes.{Bytes, codes}
use trunker.Net.{IpAddr}
use trunker.Net.Parse.{parse_ip}
use Item.{Bloom, BanFile, BanItem, new_ban_item, Io}
use Item

pub data BanType : Type 0 where
  ban_type_peer_id ban_type_info_hash ban_type_ip : BanType

pub record BanManager (B : Bloom) (F : IpFilter.IpFilter) : Type 0 where
  pub info_hash : BanItem B
  pub peer_id : BanItem B
  pub ip_filter : F.Filter

module _ {B : Bloom} {F : IpFilter.IpFilter} where
  -- `NewBanManager`, from the filter that NewIPFilter makes and the two files.
  unfoldable pub new_ban_manager : F.Filter → BanFile → BanFile → BanManager B F
  unfolding new_ban_item
  new_ban_manager filter info_hashes peer_ids = record {
    info_hash = new_ban_item info_hashes;
    peer_id = new_ban_item peer_ids;
    ip_filter = filter;
  }

  -- `getItem` panics on `ip`, which no caller passes: none.
  unfoldable pub get_item : BanType → BanManager B F → Option (BanItem B)
  get_item ban_type_peer_id b = some b.peer_id
  get_item ban_type_info_hash b = some b.info_hash
  get_item ban_type_ip b = none

  unfoldable pub set_item : BanType → BanItem B → BanManager B F → BanManager B F
  set_item ban_type_peer_id i b = record b { peer_id = i }
  set_item ban_type_info_hash i b = record b { info_hash = i }
  set_item ban_type_ip i b = b

  -- The manager after the call, and the error.
  unfoldable pub add_ban : BanType → Io → Bytes → BanManager B F → BanManager B F × Option Bytes
  unfolding get_item set_item
  add_ban target_type io target b = elim (get_item target_type b) [
    | none ↦ (b, none)
    | some i ↦ let (i', error) = Item.add io target i in (set_item target_type i' b, error)
  ]

  unfoldable pub test_ban : BanType → Bytes → BanManager B F → Bool
  unfolding get_item
  test_ban target_type target b = elim (get_item target_type b) [
    | none ↦ false
    | some i ↦ Item.test target i
  ]

  unfoldable pub clear_ban : BanType → BanManager B F → BanManager B F
  unfolding get_item set_item
  clear_ban target_type b = elim (get_item target_type b) [
    | none ↦ b
    | some i ↦ set_item target_type (Item.clear i) b
  ]

  unfoldable pub add_ip_ban : Bytes → BanManager B F → BanManager B F × Option Bytes
  add_ip_ban ip b = elim (parse_ip ip) [
    | none ↦ (b, some (codes "invalid IP address"))
    | some a ↦ let (f, error) = F.add_ip (some a) b.ip_filter in (record b { ip_filter = f }, error)
  ]

  unfoldable pub remove_ip_ban : Bytes → BanManager B F → BanManager B F × Option Bytes
  remove_ip_ban ip b = elim (parse_ip ip) [
    | none ↦ (b, some (codes "invalid IP address"))
    | some a ↦
        let (f, error) = F.remove_ip (some a) b.ip_filter in (record b { ip_filter = f }, error)
  ]

  unfoldable pub test_ip_ban : Bytes → BanManager B F → Bool
  test_ip_ban ip b = elim (parse_ip ip) [ none ↦ false | some a ↦ F.test_ip (some a) b.ip_filter ]

  unfoldable pub test_ip_addr : IpAddr → BanManager B F → Bool
  test_ip_addr ip b = F.test_ip ip b.ip_filter

  unfoldable pub clear_ip_bans : BanManager B F → BanManager B F × Option Bytes
  clear_ip_bans b = let (f, error) = F.clear b.ip_filter in (record b { ip_filter = f }, error)
