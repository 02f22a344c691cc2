-- ===== src/Database/Quotas.antt =====
-- internal/database/db.go: a profile's allowance windows, and what makes two sets of them the same.
pub mod Same
use ai_self_service.Prelude.{
  ℕ, suc, ◌-◌, String, ◌&&◌, ◌||◌, not, Bool, true, false, List, [], ◌∷◌, map, ◌==◌, str_eq,
  if◌then◌else◌, length, filter,
}
use ai_self_service.Keyprovider.{le_zero, printed}
use ai_self_service.Database.Models.{ProfileQuota}
use ai_self_service.Database.Errors.{ok}
use ai_self_service.Database.Tables.{quotas_of, delete_quota_rows, insert_quotas, bump_rev_row}
use ai_self_service.Exec.{Exec, pure, query, statement, change, ◌>>=◌, ◌>>◌}

-- `fmt.Sprintf("%s/%g", q.Period, q.Budget)`: a printed number holds no slash, so the text and the
-- pair determine each other.
abbrev pub WindowKey : Type 0
WindowKey = String × ℕ

unfoldable pub key : ProfileQuota → WindowKey
key q = (q.period, printed q.budget)

unfoldable pub same_key : WindowKey → WindowKey → Bool
same_key (p, b) (r, c) = str_eq p r && b == c

-- A `map[string]int`, which gives 0 for a key that it lacks.
abbrev pub Counts : Type 0
Counts = WindowKey → ℕ

unfoldable pub no_counts : Counts
no_counts k = 0

unfoldable pub increment : WindowKey → Counts → Counts
increment k counts j = if same_key k j then suc (counts j) else counts j

unfoldable pub decrement : WindowKey → Counts → Counts
decrement k counts j = if same_key k j then counts j - 1 else counts j

unfoldable pub tally : List ProfileQuota → Counts → Counts
tally [] counts = counts
tally (q ∷ qs) counts = tally qs (increment (key q) counts)

unfoldable pub drain : List ProfileQuota → Counts → Bool
drain [] counts = true
drain (q ∷ qs) counts =
    let rest = drain qs (decrement (key q) counts) in if counts (key q) == 0 then false else rest

-- `sameQuotaWindows`: whether two sets of windows enforce the same thing, regardless of order.
unfoldable pub same_quota_windows : List ProfileQuota → List ProfileQuota → Bool
same_quota_windows a b = if not (length a == length b) then false else drain b (tally a no_counts)

-- The rows that `setProfileQuotasTx` stores: the windows that enforce anything.
unfoldable pub enforced : ℕ → List ProfileQuota → List ProfileQuota
enforced profile_id quotas =
    map (λ (q : ProfileQuota). record q { id = 0; profile_id = profile_id })
      (filter (λ (q : ProfileQuota). not (le_zero q.budget || str_eq q.period "")) quotas)

-- `tx.NewInsert()` runs for at least one row only.
unfoldable pub insert_rows : List ProfileQuota → Exec (Unit {0})
insert_rows [] = pure tt
insert_rows (q ∷ qs) = statement (insert_quotas (q ∷ qs))

unfoldable pub replace_quotas_tx : ℕ → List ProfileQuota → Exec (Unit {0})
unfolding insert_rows
replace_quotas_tx profile_id rows = do
  change (delete_quota_rows profile_id)
  insert_rows rows
  change (bump_rev_row profile_id)

-- `setProfileQuotasTx`
unfoldable pub set_profile_quotas_tx : ℕ → List ProfileQuota → Exec (Unit {0})
unfolding enforced replace_quotas_tx
set_profile_quotas_tx profile_id quotas = do
  let rows = enforced profile_id quotas
  current ← query (λ d. ok (quotas_of profile_id d))
  if same_quota_windows current rows then pure tt else replace_quotas_tx profile_id rows
