-- ===== src/Exec/Onward.antt =====
-- Actions that keep the environment and whose step number grows: every part of a transaction does.
use ai_self_service.Prelude.{ℕ, zero, suc, ◌≤◌, Bool, true, false, ◌≡◌, refl, ◌∙◌, arith}
use ai_self_service.Database.Errors.{Result, ok, err}
use ai_self_service.Database.Tables.{Db}
use ai_self_service.Exec.{
  Exec, World, step, continue, now, statement, change, settle, commit_flag, after_record,
  after_change, flagged_tx, ◌>>=◌,
}

pub record Later (w v : World) : Type 0 where
  pub env : v.env ≡ w.env
  pub later : w.tick ≤ v.tick

Later-trans : {u v w : World} → Later u v → Later v w → Later u w
Later-trans f g = record { env = g.env ∙ f.env; later = omega (arith, f.later, g.later) }

next : (w : World) → Later w (step w)
next w = record { env = refl; later = omega arith }

pub record Onward {A : Type 0} (m : Exec A) : Type 0 where
  pub at : (w : World) → Later w (m w).1

pub Onward-now : Onward now
unfolding now
Onward-now = record { at = λ w. next w }

settle-Later : {A : Type 0} (r : Result (A × Db)) (w : World) → Later w (settle r w).1
settle-Later (ok (a, d)) w = record { env = refl; later = omega arith }
settle-Later (err e) w = record { env = refl; later = omega arith }

pub Onward-statement : {A : Type 0} (f : Db → Result (A × Db)) → Onward (statement f)
unfolding statement
Onward-statement f = record {
  at = λ w.
      let h = settle-Later (f w.db) (step w) in
      record { env = ground (arith, h.env); later = ground (arith, h.later) };
}

pub Onward-change : (f : Db → Db) → Onward (change f)
unfolding change
Onward-change f = Onward-statement (λ d. ok (tt, f d))

continue-Later :
    {A B : Type 0} (r : Result A) (f : A → Exec B) (w : World)
    → ((a : A) → Onward (f a))
    → Later w (continue r f w).1
continue-Later (ok a) f w h = (h a).at w
continue-Later (err e) f w h = record { env = refl; later = omega arith }

pub Onward-bind :
    {A B : Type 0} {m : Exec A} {f : A → Exec B}
    → Onward m
    → ((a : A) → Onward (f a))
    → Onward (m >>= f)
unfolding ◌>>=◌
Onward-bind {m} {f} hm hf = record {
  at = λ w. Later-trans (hm.at w) (continue-Later (m w).0 f (m w).1 hf);
}

commit-Later : (d : Db) (b : Bool) (w : World) → Later w (commit_flag d b w).1
commit-Later d b w = record { env = ground arith; later = ground arith }

after_record-Later : (d : Db) (r : Result (Unit {0}) × World) → Later r.1 (after_record d r).1
after_record-Later d (ok u, w) = commit-Later d true w
after_record-Later d (err e, w) = record { env = refl; later = omega arith }

after_change-Later :
    (d : Db) (n : Exec (Unit {0})) (r : Result ℕ × World)
    → Onward n
    → Later r.1 (after_change d n r).1
after_change-Later d n (err e, w) h = record { env = refl; later = omega arith }
after_change-Later d n (ok zero, w) h = commit-Later d false w
after_change-Later d n (ok (suc x), w) h = Later-trans (h.at w) (after_record-Later d (n w))

pub Onward-flagged_tx :
    {m : Exec ℕ} {n : Exec (Unit {0})} → Onward m → Onward n → Onward (flagged_tx m n)
unfolding flagged_tx
Onward-flagged_tx {m} {n} hm hn = record {
  at = λ w.
      let h =
        Later-trans (next w)
          (Later-trans (hm.at (step w)) (after_change-Later w.db n (m (step w)) hn)) in
      record { env = ground (arith, h.env); later = ground (arith, h.later) };
}
