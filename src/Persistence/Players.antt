-- ===== src/Persistence/Players.antt =====
-- apps/server/src/persistence/repositories/playersRepository.ts.
use burning_space.Base.{◌∷◌, none, some, ℕ, Bool, Option, List, ◌==◌, find_where, update_where}
use burning_space.Persistence.Schema.{PlayerRow}
use burning_space.Persistence.Transaction.{Tx, return}

abbrev pub is_player : ℕ → PlayerRow → Bool
is_player player row = row.player_id == player

abbrev pub new_player : ℕ → PlayerRow
new_player fresh = record { player_id = fresh; display_name = none }

-- `INSERT INTO players DEFAULT VALUES`, with the identifier that the database generates.
unfoldable pub create_player : ℕ → Tx PlayerRow
create_player fresh db =
    return (new_player fresh) (record db { players = new_player fresh ∷ db.players })

unfoldable pub lock_player : ℕ → Tx (Option PlayerRow)
lock_player player db = return (find_where (is_player player) db.players) db

unfoldable pub update_player_display_name : ℕ → List ℕ → Tx (Unit {0})
update_player_display_name player name db = return tt (record db {
  players =
      update_where (is_player player) (λ row. record row { display_name = some name }) db.players;
})
