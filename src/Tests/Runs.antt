-- ===== src/Tests/Runs.antt =====
-- The theorems about whole runs of the sync and of the store's methods, at the example.
use ai_self_service.Prelude.{Option, some, List, [], ◌∷◌, ◌≡◌, refl, arith, count_if}
use ai_self_service.Database.Errors.{Error, ok}
use ai_self_service.Database.KeyMap.{KeyWrite, creates, moves, deletes, OneEach, Holds, key_map}
use ai_self_service.Database.KeyMap.Refines.{perform, replay, perform-Refines}
use ai_self_service.Exec.Does.{Stays}
use ai_self_service.LimitSync.{RunResult}
use ai_self_service.LimitSync.Run.{run}
use ai_self_service.LimitSync.Open.{owners}
use ai_self_service.LimitSync.Rounds.{IsKeyed}
use ai_self_service.LimitSync.Ends.{run-Returns}
use ai_self_service.Tests.Worlds.{calm, portal, calm_world, stormy_world, new_key, plain_syncer}

calm-Stays : Stays calm
calm-Stays = record { at = λ i j l h. cc }

portal-IsKeyed : IsKeyed (owners portal)
portal-IsKeyed = ((λ e. refl, tt), tt)

run-Returns_example :
    (res : RunResult) × (e : Option Error) × ((run 2 plain_syncer calm_world).0
      ≡ ok (some (res, e)))
run-Returns_example = run-Returns 2 plain_syncer calm_world calm-Stays portal-IsKeyed (omega arith)

-- The second key of a user is refused until the first is deleted.
abbrev some_writes : List KeyWrite
some_writes = creates new_key ∷ moves 7 9500 ∷ deletes 7 ∷ creates new_key ∷ []

portal-OneEach : OneEach portal.keys
unfolding count_if
portal-OneEach user = ground arith

perform-Refines_example :
    Holds
      (replay some_writes (perform some_writes stormy_world).0 (key_map portal))
      (perform some_writes stormy_world).1.db
perform-Refines_example = perform-Refines some_writes stormy_world portal-OneEach
