-- ===== src/Admin/Tests.antt =====
-- Two bans of which the second fails.
use trunker.Base.{◌≡◌, refl, none, some, List, [], ◌∷◌}
use trunker.Base.Bytes.{Bytes, codes}
use trunker.Tracker.{done, failed, Action, AdminManager}
use trunker.Admin.{nothing}
use trunker.Admin.Each.{banned_peers, each, call_of, handler_of, handle_lists_fail}

-- Keeps what it is called with; an empty one is an error.
abbrev keep : Bytes → Action (List Bytes) (Unit {0})
keep [] s = (s, failed (codes "empty"))
keep (c ∷ cs) s = ((c ∷ cs) ∷ s, done tt)

abbrev manager : AdminManager
manager = record {
  State = List Bytes;
  handle_announce_peer = λ req s. (s, done []);
  scrape =
      λ hash s. (s, done (record { seeder = 0; complete = 0; incomplete = 0; downloaded = 0 }));
  get_statistic = λ s. (s, done (record { total_peers = 0; total_torrents = 0; shards = [] }));
  ban_info_hash = keep;
  ban_peer = keep;
  clear_ban_info_hash = λ s. [];
  clear_ban_peer = λ s. [];
  get_peers = λ hash s. (s, done []);
  delete_info_hash = keep;
  ban_ip = keep;
  unban_ip = keep;
  clear_ban_ip = λ s. ([], done tt);
  get_ip_filter_stats = λ s. none;
}

abbrev latin1 : Bytes → Bytes
latin1 b = b

first-keep :
    each (call_of manager latin1 banned_peers) ((1 ∷ []) ∷ []) [] ≡ ((1 ∷ []) ∷ [], done tt)
unfolding each
first-keep = refl

handle_lists_fail_example :
    handler_of manager latin1 banned_peers (some ((1 ∷ []) ∷ [] ∷ (2 ∷ []) ∷ [])) []
    ≡ ((1 ∷ []) ∷ [], record { code = 500; message = codes "empty"; payload = nothing })
handle_lists_fail_example =
    handle_lists_fail manager latin1 banned_peers ((1 ∷ []) ∷ []) ((2 ∷ []) ∷ []) [] []
      ((1 ∷ []) ∷ []) ((1 ∷ []) ∷ []) (codes "empty") first-keep refl
