-- ===== src/Tests/Calls.antt =====
-- The theorems about calls of the gateway and what is sent in them, at the example.
use ai_self_service.Prelude.{◌≡◌, ◌⊎◌}
use ai_self_service.Keyprovider.{QuotaWindow}
use ai_self_service.Exec.Sends.{Sends}
use ai_self_service.LimitSync.{sync_one}
use ai_self_service.LimitSync.Calls.{IsPush, sync_one-Sends}
use ai_self_service.LimitSync.Run.{run}
use ai_self_service.LimitSync.Harmless.{IsHarmless, run-Sends}
use ai_self_service.ProfileExpiry.{revoke}
use ai_self_service.Exec.KeepsKeys.{IsConfirmed}
use ai_self_service.ProfileExpiry.Confirmed.{revoke-IsConfirmed}
use ai_self_service.Tests.Worlds.{
  ten, two_and_a_half, ada, portal, calm_world, plain_syncer, ada_target,
}

abbrev hour : QuotaWindow
hour = record { budget = two_and_a_half; period = "1h" }

abbrev month : QuotaWindow
month = record { budget = ten; period = "30d" }

abbrev day : QuotaWindow
day = record { budget = two_and_a_half; period = "24h" }

sync_one-Sends_example :
    Sends (IsPush plain_syncer ada_target portal) calm_world (sync_one plain_syncer ada_target)
sync_one-Sends_example = sync_one-Sends plain_syncer ada_target calm_world

run-Sends_example : Sends IsHarmless calm_world (run 3 plain_syncer)
run-Sends_example = run-Sends 3 plain_syncer calm_world

revoke-IsConfirmed_example :
    ((revoke ada calm_world).1.db.keys ≡ portal.keys)
    ⊎ IsConfirmed ada calm_world (revoke ada calm_world).1
revoke-IsConfirmed_example = revoke-IsConfirmed ada calm_world
