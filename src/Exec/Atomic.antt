-- ===== src/Exec/Atomic.antt =====
-- Actions that change nothing, and actions that change nothing when they fail.
use ai_self_service.Prelude.{Bool, true, false, ◌≡◌, refl, ◌∙◌, arith, if◌then◌else◌}
use ai_self_service.Database.Errors.{Error, Result, ok, err}
use ai_self_service.Database.Tables.{Db}
use ai_self_service.Exec.{
  Exec, World, GatewayCall, pure, raise, continue, now, ctx_done, query, statement, change, settle,
  finish, step, run_in_tx, call, random, attempt, ◌>>=◌,
}

pub record ReadOnly {A : Type 0} (m : Exec A) : Type 0 where
  pub at : (w : World) → (m w).1.db ≡ w.db

pub record Atomic {A : Type 0} (m : Exec A) : Type 0 where
  pub at : (w : World) (e : Error) → (m w).0 ≡ err e → (m w).1.db ≡ w.db

-- Whatever happens, it returns.
pub record Total {A : Type 0} (m : Exec A) : Type 0 where
  pub at : (w : World) (e : Error) → (m w).0 ≡ err e → ⊥

module _ {A : Type 0} where
  pub ReadOnly-Atomic : {m : Exec A} → ReadOnly m → Atomic m
  ReadOnly-Atomic r = record { at = λ w e h. r.at w }

  pub Total-Atomic : {m : Exec A} → Total m → Atomic m
  Total-Atomic t = record { at = λ w e h. absurd (t.at w e h) }

  pub ReadOnly-pure : (a : A) → ReadOnly (pure a)
  ReadOnly-pure a = record { at = λ w. refl }

  pub Total-pure : (a : A) → Total (pure a)
  Total-pure a = record { at = λ w e h. cc }

  pub ReadOnly-raise : (e : Error) → ReadOnly (raise {A = A} e)
  ReadOnly-raise e = record { at = λ w. refl }

  pub ReadOnly-query : (f : Db → Result A) → ReadOnly (query f)
  unfolding query
  ReadOnly-query f = record { at = λ w. ground arith }

  settle_atomic :
      (r : Result (A × Db)) (w : World) (e : Error)
      → (settle r w).0 ≡ err e
      → (settle r w).1.db ≡ w.db
  settle_atomic (ok (a, d)) w e h = cc
  settle_atomic (err x) w e h = refl

  pub Atomic-statement : (f : Db → Result (A × Db)) → Atomic (statement f)
  unfolding statement
  Atomic-statement f = record { at = λ w e h. ground (arith, settle_atomic (f w.db) w e) }

  finish_atomic :
      (d : Db) (r : Result A × World) (e : Error) → (finish d r).0 ≡ err e → (finish d r).1.db ≡ d
  finish_atomic d (ok a, w) e h = ground arith
  finish_atomic d (err x, w) e h = refl

  -- A transaction that fails is rolled back, whatever it was made of.
  pub Atomic-run_in_tx : (m : Exec A) → Atomic (run_in_tx m)
  unfolding run_in_tx
  Atomic-run_in_tx m = record { at = λ w e h. ground (arith, finish_atomic w.db (m (step w)) e) }

  pub Total-attempt : (m : Exec A) → Total (attempt m)
  unfolding attempt
  Total-attempt m = record { at = λ w e h. cc }

  pub ReadOnly-attempt : {m : Exec A} → ReadOnly m → ReadOnly (attempt m)
  unfolding attempt
  ReadOnly-attempt r = record { at = r.at }

  pub Atomic-if : (b : Bool) {m n : Exec A} → Atomic m → Atomic n → Atomic (if b then m else n)
  Atomic-if true hm hn = hm
  Atomic-if false hm hn = hn

  pub ReadOnly-if :
      (b : Bool) {m n : Exec A} → ReadOnly m → ReadOnly n → ReadOnly (if b then m else n)
  ReadOnly-if true hm hn = hm
  ReadOnly-if false hm hn = hn

pub Atomic-change : (f : Db → Db) → Atomic (change f)
unfolding change
Atomic-change f = Atomic-statement (λ d. ok (tt, f d))

pub ReadOnly-now : ReadOnly now
unfolding now
ReadOnly-now = record { at = λ w. refl }

pub ReadOnly-ctx_done : ReadOnly ctx_done
unfolding ctx_done
ReadOnly-ctx_done = record { at = λ w. refl }

pub ReadOnly-random : ReadOnly random
unfolding random
ReadOnly-random = record { at = λ w. refl }

pub ReadOnly-call : (c : GatewayCall) → ReadOnly (call c)
unfolding call
ReadOnly-call c = record { at = λ w. refl }

module _ {A B : Type 0} where
  continue_read :
      (r : Result A) (f : A → Exec B) (w : World)
      → ((a : A) → ReadOnly (f a))
      → (continue r f w).1.db ≡ w.db
  continue_read (ok a) f w h = (h a).at w
  continue_read (err e) f w h = refl

  continue-Atomic :
      (r : Result A) (f : A → Exec B) (w : World) (d : Db) (e : Error)
      → w.db ≡ d
      → ((a : A) → Atomic (f a))
      → (continue r f w).0 ≡ err e
      → (continue r f w).1.db ≡ d
  continue-Atomic (ok a) f w d e k h q = (h a).at w e q ∙ k
  continue-Atomic (err x) f w d e k h q = k

  continue-Total :
      (r : Result A) (f : A → Exec B) (w : World) (d : Db) (e : Error)
      → ((x : Error) → r ≡ err x → w.db ≡ d)
      → ((a : A) → Total (f a))
      → (continue r f w).0 ≡ err e
      → (continue r f w).1.db ≡ d
  continue-Total (ok a) f w d e k h q = absurd ((h a).at w e q)
  continue-Total (err x) f w d e k h q = k x refl

  pub ReadOnly-bind :
      {m : Exec A} {f : A → Exec B} → ReadOnly m → ((a : A) → ReadOnly (f a)) → ReadOnly (m >>= f)
  unfolding ◌>>=◌
  ReadOnly-bind {m} {f} hm hf = record { at = λ w. continue_read (m w).0 f (m w).1 hf ∙ hm.at w }

  -- Reading before an atomic action leaves it atomic.
  pub Atomic-bind_read :
      {m : Exec A} {f : A → Exec B} → ReadOnly m → ((a : A) → Atomic (f a)) → Atomic (m >>= f)
  unfolding ◌>>=◌
  Atomic-bind_read {m} {f} hm hf = record {
    at = λ w e h. continue-Atomic (m w).0 f (m w).1 w.db e (hm.at w) hf h;
  }

  -- So does what cannot fail, after it.
  pub Atomic-bind-Total :
      {m : Exec A} {f : A → Exec B} → Atomic m → ((a : A) → Total (f a)) → Atomic (m >>= f)
  unfolding ◌>>=◌
  Atomic-bind-Total {m} {f} hm hf = record {
    at = λ w e h. continue-Total (m w).0 f (m w).1 w.db e (λ x q. hm.at w x q) hf h;
  }

  continue-Total' :
      (r : Result A) (f : A → Exec B) (w : World) (e : Error)
      → ((x : Error) → r ≡ err x → ⊥)
      → ((a : A) → Total (f a))
      → (continue r f w).0 ≡ err e
      → ⊥
  continue-Total' (ok a) f w e k h q = (h a).at w e q
  continue-Total' (err x) f w e k h q = k x refl

  pub Total-bind :
      {m : Exec A} {f : A → Exec B} → Total m → ((a : A) → Total (f a)) → Total (m >>= f)
  unfolding ◌>>=◌
  Total-bind {m} {f} hm hf = record {
    at = λ w e h. continue-Total' (m w).0 f (m w).1 e (hm.at w) hf h;
  }

pub Total-now : Total now
unfolding now
Total-now = record { at = λ w e h. cc }
