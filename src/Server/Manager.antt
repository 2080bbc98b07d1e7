-- ===== src/Server/Manager.antt =====
-- crates/poker-server/src/table.rs, `TableManager`: the tables, and which player sits at which.
use vibe_poker.Base.{ℕ, List, [], ◌∷◌, map, Option, none, some, leb, ◌==◌, if◌then◌else◌}
use vibe_poker.Net.Protocol.{TableInfo}
use vibe_poker.Server.Store.{Store}
use vibe_poker.Server.Table.{Table, info}

-- The tables have different ids.
pub record World : Type 0 where
  pub store : Store
  pub tables : List Table
  pub player_table : List (ℕ × ℕ)

abbrev pub find_table : ℕ → List Table → Option Table
find_table id [] = none
find_table id (t ∷ ts) = if t.id == id then some t else find_table id ts

-- The table with the id of `t` becomes `t`.
abbrev pub put_table : Table → List Table → List Table
put_table t [] = []
put_table t (u ∷ us) = if u.id == t.id then t ∷ us else u ∷ put_table t us

-- `HashMap::get`
abbrev pub lookup {ℓ} : {V : Type ℓ} → ℕ → List (ℕ × V) → Option V
lookup k [] = none
lookup k ((j, v) ∷ m) = if j == k then some v else lookup k m

-- `HashMap::insert`
abbrev pub insert {ℓ} : {V : Type ℓ} → ℕ → V → List (ℕ × V) → List (ℕ × V)
insert k v [] = (k, v) ∷ []
insert k v ((j, u) ∷ m) = if j == k then (k, v) ∷ m else (j, u) ∷ insert k v m

-- `HashMap::remove`
abbrev pub remove {ℓ} : {V : Type ℓ} → ℕ → List (ℕ × V) → List (ℕ × V)
remove k [] = []
remove k ((j, u) ∷ m) = let rest = remove k m in if j == k then rest else (j, u) ∷ rest

-- `TableManager::get`
abbrev pub get : ℕ → World → Option Table
get id s = find_table id s.tables

-- `TableManager::current_table`
abbrev pub current_table : ℕ → World → Option ℕ
current_table player_id s = lookup player_id s.player_table

-- `TableManager::record_join`
abbrev pub record_join : ℕ → ℕ → World → World
record_join player_id table_id s = record s {
  player_table = insert player_id table_id s.player_table;
}

-- `TableManager::record_leave`, which returns the table that was left.
abbrev pub record_leave : ℕ → World → World
record_leave player_id s = record s { player_table = remove player_id s.player_table }

-- `out.sort_by_key(|t| t.table_id)`, by insertion.
abbrev pub insert_info : TableInfo → List TableInfo → List TableInfo
insert_info x [] = x ∷ []
insert_info x (y ∷ ys) = if leb x.table_id y.table_id then x ∷ y ∷ ys else y ∷ insert_info x ys

abbrev pub sort_infos : List TableInfo → List TableInfo
sort_infos [] = []
sort_infos (x ∷ xs) = insert_info x (sort_infos xs)

-- `TableManager::list_infos`
unfoldable pub list_infos : World → List TableInfo
unfolding info
list_infos s = sort_infos (map info s.tables)
