-- ===== src/Auth/MultiPath.antt =====
-- server/webbou/auth.go, `MultiPathManager`: the network paths of a connection. The order of the
-- map's entries is the order in which Go's `range` happens to visit them.
pub mod Best
pub mod Paths
use web_bou.Prelude.{
  nat_eq, ℕ, ◌+◌, Bool, true, false, Option, none, some, List, [], ◌∷◌, String, ltb, eqb, not, ◌&&◌,
  ◌||◌, if◌then◌else◌,
}
use web_bou.Prelude.Words.{u32}
use web_bou.Prelude.Maps.{Map, get, put}
use web_bou.Prelude.Clock.{Time, Duration}

-- `Path` of the source.
pub record NetPath : Type 0 where
  pub id : ℕ  -- uint32
  pub local_addr : String
  pub remote_addr : String
  pub active : Bool
  pub latency : Duration
  pub last_active : Time
  pub rx : ℕ  -- uint64
  pub tx : ℕ  -- uint64

pub record MultiPathManager : Type 0 where
  pub paths : Map ℕ NetPath
  pub active_id : ℕ  -- uint32

unfoldable new_multi_path_manager : MultiPathManager
new_multi_path_manager = record { paths = []; active_id = 0 }

abbrev pub new_path : ℕ → String → String → Time → NetPath
new_path id local_addr remote_addr now = record {
  id = id;
  local_addr = local_addr;
  remote_addr = remote_addr;
  active = true;
  latency = 0;
  last_active = now;
  rx = 0;
  tx = 0;
}

unfoldable add_path : MultiPathManager → String → String → Time → MultiPathManager × ℕ
add_path mp local_addr remote_addr now =
    let id = u32 (mp.active_id + 1) in
    (
      record { paths = put id (new_path id local_addr remote_addr now) mp.paths; active_id = id },
      id,
    )

-- Rewrites the entry of `path_id`, if there is one.
abbrev modify : (NetPath → NetPath) → ℕ → MultiPathManager → Option NetPath → MultiPathManager
modify change path_id mp none = mp
modify change path_id mp (some path) = record mp { paths = put path_id (change path) mp.paths }

unfoldable remove_path : MultiPathManager → ℕ → MultiPathManager
remove_path mp path_id =
    modify (λ path. record path { active = false }) path_id mp (get path_id mp.paths)

unfoldable first_active : Map ℕ NetPath → ℕ × Bool
first_active [] = (0, false)
first_active ((id, path) ∷ rest) =
    let later = first_active rest in if path.active then (id, true) else later

unfoldable get_active_path : MultiPathManager → ℕ × Bool
get_active_path mp = first_active mp.paths

-- The loop of `GetBestPath`, over `bestID` and `bestLatency`.
unfoldable pub best_from : ℕ → Duration → Map ℕ NetPath → ℕ × Duration
best_from best_id best_latency [] = (best_id, best_latency)
best_from best_id best_latency ((id, path) ∷ rest) =
    let better = path.active && (eqb best_id 0 || ltb path.latency best_latency) in
    best_from (if better then id else best_id) (if better then path.latency else best_latency) rest

unfoldable pub get_best_path : MultiPathManager → ℕ × Bool
get_best_path mp =
    let (best_id, best_latency) = best_from 0 0 mp.paths in (best_id, not (eqb best_id 0))

unfoldable update_latency : MultiPathManager → ℕ → Duration → Time → MultiPathManager
update_latency mp path_id latency now =
    modify (λ path. record path { latency = latency; last_active = now }) path_id mp
      (get path_id mp.paths)

unfoldable get_path_stats : MultiPathManager → ℕ → ℕ × ℕ × Bool
get_path_stats mp path_id = elim (get path_id mp.paths) [
  | none ↦ (0, 0, false)
  | some path ↦ (path.rx, path.tx, path.active)
]

unfoldable count_active : Map ℕ NetPath → ℕ
count_active [] = 0
count_active ((id, path) ∷ rest) = (if path.active then 1 else 0) + count_active rest

unfoldable get_path_count : MultiPathManager → ℕ
get_path_count mp = count_active mp.paths
