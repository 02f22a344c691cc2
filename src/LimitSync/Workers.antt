-- ===== src/LimitSync/Workers.antt =====
-- internal/limitsync/limitsync.go: `forEach`, with its calls one after the other.
use ai_self_service.Prelude.{Option, none, some, List, [], ◌∷◌, if◌then◌else◌}
use ai_self_service.Database.Errors.{Error}
use ai_self_service.Exec.{Exec, pure, ctx_done, ◌>>=◌}

abbrev pub first_error : Option Error → Option Error → Option Error
first_error none later = later
first_error (some e) later = some e

-- It starts no further call once the context has ended, and an error does not stop it. Beside the
-- first error it returns what the calls produced.
unfoldable pub for_each :
    {A B : Type 0} → (A → Exec (B × Option Error)) → List A → Exec (List B × Option Error)
for_each act [] = pure ([], none)
for_each act (x ∷ xs) = do
  done ← ctx_done
  if done
      then pure ([], none)
      else do r ← act x; rest ← for_each act xs; pure (r.0 ∷ rest.0, first_error r.1 rest.1)
