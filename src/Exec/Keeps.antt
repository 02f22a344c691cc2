-- ===== src/Exec/Keeps.antt =====
-- Actions that leave a view of the tables alone. One rule for each way to build an action.
use ai_self_service.Prelude.{
  ℕ, zero, suc, Bool, true, false, ◌≡◌, refl, sym, ap, ◌∙◌, arith, if◌then◌else◌,
}
use ai_self_service.Database.Errors.{Error, Result, ok, err}
use ai_self_service.Database.Tables.{Db}
use ai_self_service.Exec.{
  Exec, World, GatewayCall, step, pure, raise, continue, call, now, query, statement, settle,
  attempt, commit_flag, after_record, after_change, flagged_tx, ◌>>=◌,
}

pub record Keeps {X A : Type 0} (view : Db → X) (m : Exec A) : Type 0 where
  pub at : (w : World) → view (m w).1.db ≡ view w.db

stored : {A : Type 0} (p r : A × Db) → (let x : Result (A × Db) = ok p in x) ≡ ok r → r.1 ≡ p.1
stored p r e = ground arith

module _ {X : Type 0} (view : Db → X) where
  commit_flag_view :
      (d : Db) (b : Bool) (w : World) → view d ≡ view w.db → view (commit_flag d b w).1.db ≡ view d
  commit_flag_view d b w h = ground (arith, h)

  after_record_view :
      (d : Db) (r : Result (Unit {0}) × World)
      → view r.1.db ≡ view d
      → view (after_record d r).1.db ≡ view d
  after_record_view d (ok u, w) h = commit_flag_view d true w (sym h)
  after_record_view d (err e, w) h = refl

  after_change_view :
      (d : Db) (n : Exec (Unit {0})) (r : Result ℕ × World)
      → Keeps view n
      → view r.1.db ≡ view d
      → view (after_change d n r).1.db ≡ view d
  after_change_view d n (err e, w) k h = refl
  after_change_view d n (ok zero, w) k h = commit_flag_view d false w (sym h)
  after_change_view d n (ok (suc x), w) k h = after_record_view d (n w) (k.at w ∙ h)

module _ {X : Type 0} {view : Db → X} where
  pub Keeps-pure : {A : Type 0} (a : A) → Keeps view (pure a)
  Keeps-pure a = record { at = λ w. refl }

  pub Keeps-raise : {A : Type 0} (e : Error) → Keeps view (raise {A = A} e)
  Keeps-raise e = record { at = λ w. refl }

  pub Keeps-now : Keeps view now
  unfolding now
  Keeps-now = record { at = λ w. refl }

  pub Keeps-call : (c : GatewayCall) → Keeps view (call c)
  unfolding call
  Keeps-call c = record { at = λ w. refl }

  pub Keeps-query : {A : Type 0} (f : Db → Result A) → Keeps view (query f)
  unfolding query
  Keeps-query f = record { at = λ w. ground arith }

  pub Keeps-attempt : {A : Type 0} {m : Exec A} → Keeps view m → Keeps view (attempt m)
  unfolding attempt
  Keeps-attempt h = record { at = h.at }

  pub Keeps-if :
      {A : Type 0} {m n : Exec A} (b : Bool)
      → Keeps view m
      → Keeps view n
      → Keeps view (if b then m else n)
  Keeps-if true hm hn = hm
  Keeps-if false hm hn = hn

  pub Keeps-when :
      {A : Type 0} {m n : Exec A} (b : Bool)
      → (b ≡ true → Keeps view m)
      → (b ≡ false → Keeps view n)
      → Keeps view (if b then m else n)
  Keeps-when true hm hn = hm refl
  Keeps-when false hm hn = hn refl

  settle_view :
      {A : Type 0} (r : Result (A × Db)) (w : World)
      → ((a : A) (d : Db) → r ≡ ok (a, d) → view d ≡ view w.db)
      → view (settle r w).1.db ≡ view w.db
  settle_view (ok (a, d)) w h = h a d refl
  settle_view (err e) w h = refl

  pub Keeps-statement :
      {A : Type 0} (f : Db → Result (A × Db))
      → ((d : Db) (a : A) (d' : Db) → f d ≡ ok (a, d') → view d' ≡ view d)
      → Keeps view (statement f)
  unfolding statement
  Keeps-statement f h = record { at = λ w. ground (arith, settle_view (f w.db) (step w) (h w.db)) }

  -- A statement that no constraint can refuse, with what it returns.
  pub Keeps-always :
      {A : Type 0} (g : Db → A × Db)
      → ((d : Db) → view (g d).1 ≡ view d)
      → Keeps view (statement (λ d. ok (g d)))
  Keeps-always g h =
      Keeps-statement (λ d. ok (g d)) (λ d a d' e. ap (λ x. view x) (stored (g d) (a, d') e) ∙ h d)

  continue_view :
      {A B : Type 0} (r : Result A) (f : A → Exec B) (w : World)
      → ((a : A) → Keeps view (f a))
      → view (continue r f w).1.db ≡ view w.db
  continue_view (ok a) f w h = (h a).at w
  continue_view (err e) f w h = refl

  pub Keeps-bind :
      {A B : Type 0} {m : Exec A} {f : A → Exec B}
      → Keeps view m
      → ((a : A) → Keeps view (f a))
      → Keeps view (m >>= f)
  unfolding ◌>>=◌
  Keeps-bind {m} {f} hm hf = record { at = λ w. continue_view (m w).0 f (m w).1 hf ∙ hm.at w }

  pub Keeps-flagged_tx :
      {m : Exec ℕ} {n : Exec (Unit {0})} → Keeps view m → Keeps view n → Keeps view (flagged_tx m n)
  unfolding flagged_tx
  Keeps-flagged_tx {m} {n} hm hn = record {
    at = λ w. ground (arith, after_change_view view w.db n (m (step w)) hn (hm.at (step w)));
  }
