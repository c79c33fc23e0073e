-- ===== src/Database/Restored.antt =====
-- The bans of biz/services/peer/database/admin.go after a restart.
use trunker.Base.{
  ℕ, ◌≡◌, refl, ap, ◌∙◌, inl, inr, Bool, true, List, [], ◌∷◌, map, arith, Bool-cases, All,
}
use trunker.Base.Bytes.{Bytes, IsByte, codes, eq_bytes, eq_bytes_iff}
use trunker.Config.{Config}
use trunker.Request.{AnnounceRequest}
use trunker.Tracker.{done, failed}
use trunker.Ban.Hex.{hex_encode}
use trunker.Ban.Item.{Bloom, IsBloom}
use trunker.Ban.Kept.{has, test-add_keys}
use trunker.Database.{
  Gorm, BlockList, BlockType, block_type_info_hash, eq_block_type, decode_string,
}
use trunker.Database.Adaptor.{decode_string-hex_encode}
use trunker.Database.Manager.{
  DbManager, ban_info_hash, handle_announce_peer, new_db_manager, block_list, add_to_block_list,
}

abbrev pub of_type : BlockType → BlockList → Bool
of_type type b = eq_block_type b.type type

-- A row that was created, or that was there and made the creation do nothing, is found by its type.
pub record IsGorm (G : Gorm) : Type 0 where
  pub find-create :
      (b : BlockList) (db : G.Db) (bs : List BlockList)
      → (G.create_block b db).1 ≡ done tt
      → G.find_blocks (of_type b.type) (G.create_block b db).0 ≡ done bs
      → has b.target (map (λ r. r.target) bs) ≡ true

decoded_target :
    (k : Bytes) (bs : List BlockList)
    → All IsByte k
    → has (hex_encode k) (map (λ r. r.target) bs) ≡ true
    → has k (map (λ r. decode_string r.target) bs) ≡ true
unfolding has
decoded_target k [] b h = h
decoded_target k (r ∷ bs) b h = elim (Bool-cases (eq_bytes r.target (hex_encode k))) [
  | inl e ↦ ground (arith, (eq_bytes_iff (decode_string r.target) k).1 (same e))
  | inr e ↦ ground (arith, decoded_target k bs b (rw e at h))
]
  where
    same : eq_bytes r.target (hex_encode k) ≡ true → decode_string r.target ≡ k
    same e =
        ap decode_string ((eq_bytes_iff r.target (hex_encode k)).0 e) ∙ decode_string-hex_encode k b

-- The list that a start reads has the target that was added before it.
block_list-add_to_block_list :
    {G : Gorm} (law : IsGorm G) (now : ℕ) (k : Bytes) (type : BlockType) (db : G.Db)
    (bs : List BlockList)
    → All IsByte k
    → (add_to_block_list G now k type db).1 ≡ done tt
    → G.find_blocks (of_type type) (add_to_block_list G now k type db).0 ≡ done bs
    → has k (block_list G type (add_to_block_list G now k type db).0) ≡ true
unfolding add_to_block_list block_list
block_list-add_to_block_list law now k type db bs b added found =
    rw (found, block_list) (decoded_target k bs b (law.find-create _ db bs added found))

module _ {G : Gorm} {B : Bloom} (bloom : IsBloom B) (law : IsGorm G) where
  -- A torrent is banned, the database takes the ban, and the manager is made anew from a database that
  -- can be read. The new manager refuses every announce of the torrent, and so does the one that was
  -- told of the ban; both stay as they are.
  pub new_db_manager-ban_info_hash :
      (cfg : Config) (now later seed : ℕ) (req : AnnounceRequest) (m : DbManager G B)
      (bs : List BlockList)
      → All IsByte req.info_hash
      → (ban_info_hash now req.info_hash m).1 ≡ done tt
      → G.find_blocks (of_type block_type_info_hash) (ban_info_hash now req.info_hash m).0.db
        ≡ done bs
      → let told = (ban_info_hash now req.info_hash m).0 in
        let made : DbManager G B = new_db_manager told.db in
        (handle_announce_peer cfg later seed req told ≡ (told, failed (codes "banned")))
        × (handle_announce_peer cfg later seed req made ≡ (made, failed (codes "banned")))
  unfolding ban_info_hash handle_announce_peer new_db_manager
  new_db_manager-ban_info_hash cfg now later seed req m bs b added found = (
    rw (bloom.test-add req.info_hash m.ban_info_hash) refl,
    rw
        (test-add_keys bloom req.info_hash
          (block_list G block_type_info_hash
            (add_to_block_list G now req.info_hash block_type_info_hash m.db).0)
          (B.new 10_000)
          (block_list-add_to_block_list law now req.info_hash block_type_info_hash m.db bs b added
            found))
        refl,
  )
