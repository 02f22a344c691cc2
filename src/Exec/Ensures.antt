-- ===== src/Exec/Ensures.antt =====
-- Partial correctness over the tables: from tables with `P`, an action that returns `a` leaves
-- tables with `Q a`. One rule for each way to build an action.
use ai_self_service.Prelude.{
  Bool, true, false, ◌≡◌, refl, sym, ap, ◌∙◌, subst, arith, if◌then◌else◌,
}
use ai_self_service.Database.Errors.{Error, Result, ok, err, io}
use ai_self_service.Database.Models.{Time}
use ai_self_service.Database.Tables.{Db}
use ai_self_service.Exec.{
  Exec, World, step, pure, raise, continue, now, query, statement, change, settle, finish,
  run_in_tx, attempt, ◌>>=◌,
}
use ai_self_service.Exec.Atomic.{Atomic, ReadOnly}

pub record Ensures {A : Type 0} (P : Db → Type 0) (m : Exec A) (Q : A → Db → Type 0) : Type 0 where
  pub at : (w : World) → P w.db → (a : A) → (m w).0 ≡ ok a → Q a (m w).1.db

module _ {A : Type 0} where
  -- An action that returned was not refused by the engine.
  not_failed :
      (b : Bool) (w : World) (y : Result A × World) (a : A)
      → (let z : Result A × World = if b then (err io, w) else y in z.0) ≡ ok a
      → (let z : Result A × World = if b then (err io, w) else y in z) ≡ y
  not_failed true w y a h = cc
  not_failed false w y a h = refl

  settle_lem :
      (r : Result (A × Db)) (w : World) (a : A)
      → (settle r w).0 ≡ ok a
      → (d : Db) × (r ≡ ok (a, d)) × ((settle r w).1.db ≡ d)
  settle_lem (ok (b, d)) w a h = (d, ground arith, refl)
  settle_lem (err e) w a h = cc

  finish_lem :
      (d : Db) (r : Result A × World) (a : A)
      → (finish d r).0 ≡ ok a
      → (r.0 ≡ ok a) × ((finish d r).1.db ≡ r.1.db)
  finish_lem d (ok b, w) a h = ground arith
  finish_lem d (err e, w) a h = cc

  pub query_ok :
      (f : Db → Result A) (w : World) (a : A)
      → (query f w).0 ≡ ok a
      → (f w.db ≡ ok a) × ((query f w).1.db ≡ w.db)
  unfolding query
  query_ok f w a h =
      let q = not_failed (w.env.db_fails w.tick) (step w) (f w.db, step w) a h in
      (ap (λ (z : Result A × World). z.0) (sym q) ∙ h, ap (λ (z : Result A × World). z.1.db) q)

  statement_ok :
      (f : Db → Result (A × Db)) (w : World) (a : A)
      → (statement f w).0 ≡ ok a
      → (d : Db) × (f w.db ≡ ok (a, d)) × ((statement f w).1.db ≡ d)
  unfolding statement
  statement_ok f w a h =
      let q = not_failed (w.env.db_fails w.tick) (step w) (settle (f w.db) (step w)) a h in
      let l = settle_lem (f w.db) (step w) a (ap (λ (z : Result A × World). z.0) (sym q) ∙ h) in
      (l.0, l.1, ap (λ (z : Result A × World). z.1.db) q ∙ l.2)

  run_in_tx_ok :
      (m : Exec A) (w : World) (a : A)
      → (run_in_tx m w).0 ≡ ok a
      → ((m (step w)).0 ≡ ok a) × ((run_in_tx m w).1.db ≡ (m (step w)).1.db)
  unfolding run_in_tx
  run_in_tx_ok m w a h =
      let q = not_failed (w.env.db_fails w.tick) (step w) (finish w.db (m (step w))) a h in
      let l = finish_lem w.db (m (step w)) a (ap (λ (z : Result A × World). z.0) (sym q) ∙ h) in
      (l.0, ap (λ (z : Result A × World). z.1.db) q ∙ l.1)

module _ {A : Type 0} {P : Db → Type 0} {Q : A → Db → Type 0} where
  pub Ensures-pure : (a : A) → ((d : Db) → P d → Q a d) → Ensures P (pure a) Q
  Ensures-pure a h = record { at = λ w p b e. subst (λ x. Q x w.db) (ground arith) (h w.db p) }

  pub Ensures-raise : (e : Error) → Ensures P (raise e) Q
  Ensures-raise e = record { at = λ w p b q. cc }

  pub Ensures-query :
      (f : Db → Result A) → ((d : Db) (a : A) → P d → f d ≡ ok a → Q a d) → Ensures P (query f) Q
  Ensures-query f h = record {
    at = λ w p a e. let l = query_ok f w a e in subst (Q a) (sym l.1) (h w.db a p l.0);
  }

  pub Ensures-statement :
      (f : Db → Result (A × Db))
      → ((d : Db) (a : A) (d' : Db) → P d → f d ≡ ok (a, d') → Q a d')
      → Ensures P (statement f) Q
  Ensures-statement f h = record {
    at = λ w p a e. let l = statement_ok f w a e in subst (Q a) (sym l.2) (h w.db a l.0 p l.1);
  }

  pub Ensures-run_in_tx : {m : Exec A} → Ensures P m Q → Ensures P (run_in_tx m) Q
  Ensures-run_in_tx {m} h = record {
    at = λ w p a e. let l = run_in_tx_ok m w a e in subst (Q a) (sym l.1) (h.at (step w) p a l.0);
  }

  pub Ensures-if :
      (b : Bool) {m n : Exec A}
      → (b ≡ true → Ensures P m Q)
      → (b ≡ false → Ensures P n Q)
      → Ensures P (if b then m else n) Q
  Ensures-if true hm hn = hm refl
  Ensures-if false hm hn = hn refl

pub Ensures-change :
    {P : Db → Type 0} {Q : Unit {0} → Db → Type 0} (f : Db → Db)
    → ((d : Db) → P d → Q tt (f d))
    → Ensures P (change f) Q
unfolding change
Ensures-change f h = Ensures-statement (λ d. ok (tt, f d)) (λ d a d' p e. ground (arith, h d p))

pub Ensures-now :
    {P : Db → Type 0} {Q : Time → Db → Type 0}
    → ((d : Db) (t : Time) → P d → Q t d)
    → Ensures P now Q
unfolding now
Ensures-now {Q} h = record {
  at = λ w p a e. subst (λ x. Q x w.db) (ground arith) (h w.db (w.env.clock w.tick) p);
}

continue_lem :
    {A B : Type 0} (Q : B → Db → Type 0) (r : Result A) (f : A → Exec B) (w : World) (b : B)
    → (continue r f w).0 ≡ ok b
    → ((a : A) → r ≡ ok a → (f a w).0 ≡ ok b → Q b (f a w).1.db)
    → Q b (continue r f w).1.db
continue_lem Q (ok a) f w b e h = h a refl e
continue_lem Q (err x) f w b e h = cc

module _ {A B : Type 0} {P : Db → Type 0} (R : A → Db → Type 0) {Q : B → Db → Type 0} where
  -- The middle condition is written at the call.
  pub Ensures-bind :
      {m : Exec A} {f : A → Exec B}
      → Ensures P m R
      → ((a : A) → Ensures (R a) (f a) Q)
      → Ensures P (m >>= f) Q
  unfolding ◌>>=◌
  Ensures-bind {m} {f} hm hf = record {
    at = λ w p b e.
        continue_lem Q (m w).0 f (m w).1 b e (λ a ea eb. (hf a).at (m w).1 (hm.at w p a ea) b eb);
  }

keeps_lem :
    {A : Type 0} {P : Db → Type 0} (m : Exec A) (w : World) (r : Result A)
    → (m w).0 ≡ r
    → Atomic m
    → Ensures P m (λ _. P)
    → P w.db
    → P (m w).1.db
keeps_lem {P} m w (ok a) q at h p = h.at w p a q
keeps_lem {P} m w (err e) q at h p = subst P (sym (at.at w e q)) p

-- An atomic action keeps what its success keeps.
pub Atomic-keeps :
    {A : Type 0} {P : Db → Type 0} {m : Exec A} (w : World)
    → Atomic m
    → Ensures P m (λ _. P)
    → P w.db
    → P (m w).1.db
Atomic-keeps {m} w at h p = keeps_lem m w (m w).0 refl at h p

attempt_lem :
    {A : Type 0} {P Q : Db → Type 0} (m : Exec A) (w : World) (r : Result A)
    → (m w).0 ≡ r
    → Atomic m
    → Ensures P m (λ _. Q)
    → ((d : Db) → P d → Q d)
    → P w.db
    → Q (m w).1.db
attempt_lem {Q} m w (ok a) q at h k p = h.at w p a q
attempt_lem {Q} m w (err e) q at h k p = subst Q (sym (at.at w e q)) (k w.db p)

-- What an atomic action ensures, where its failure is not reported.
pub Ensures-attempt :
    {A : Type 0} {P Q : Db → Type 0} {m : Exec A}
    → Atomic m
    → ((d : Db) → P d → Q d)
    → Ensures P m (λ _. Q)
    → Ensures P (attempt m) (λ _. Q)
unfolding attempt
Ensures-attempt {m} at k h = record { at = λ w p a e. attempt_lem m w (m w).0 refl at h k p }

pub Ensures-ReadOnly :
    {A : Type 0} {P : Db → Type 0} {m : Exec A} → ReadOnly m → Ensures P m (λ _. P)
Ensures-ReadOnly {P} r = record { at = λ w p a e. subst P (sym (r.at w)) p }

continued :
    {A B : Type 0} (r : Result A) (f : A → Exec B) (w : World) (b : B)
    → (continue r f w).0 ≡ ok b
    → (a : A) × (r ≡ ok a) × ((f a w).0 ≡ ok b) × ((continue r f w).1 ≡ (f a w).1)
continued (ok a) f w b e = (a, refl, e, refl)
continued (err x) f w b e = cc

-- Both parts of what returned have returned, and the second left its world.
pub bind_ok :
    {A B : Type 0} (m : Exec A) (f : A → Exec B) (w : World) (b : B)
    → ((m >>= f) w).0 ≡ ok b
    → (a : A) × ((m w).0 ≡ ok a) × ((f a (m w).1).0 ≡ ok b) × (((m >>= f) w).1 ≡ (f a (m w).1).1)
unfolding ◌>>=◌
bind_ok m f w b e = continued (m w).0 f (m w).1 b e

pub ok_is : {A : Type 0} (a b : A) → (let r : Result A = ok a in r) ≡ ok b → a ≡ b
ok_is a b e = ground arith
