-- ===== src/Exec/Does.antt =====
-- Total correctness from one world: an action returns a value, and that value and the world after it
-- have a property. One rule for each way to build an action that the limit sync uses.
use ai_self_service.Prelude.{
  ℕ, ◌≤◌, Bool, true, false, ◌≡◌, refl, sym, ap, ◌∙◌, subst, arith, if◌then◌else◌,
}
use ai_self_service.Database.Errors.{Result, ok, err, io}
use ai_self_service.Database.Models.{Time}
use ai_self_service.Database.Tables.{Db}
use ai_self_service.Exec.{
  Exec, World, Env, step, with_db, pure, continue, now, ctx_done, query, statement, change, attempt,
  ◌>>=◌,
}

-- A later world of the same environment, whose tables are related to the earlier ones.
pub record From (R : Db → Db → Type 0) (w v : World) : Type 0 where
  pub env : v.env ≡ w.env
  pub later : w.tick ≤ v.tick
  pub tables : R w.db v.db

pub record Does {A : Type 0} (m : Exec A) (w : World) (Q : A → World → Type 0) : Type 0 where
  pub value : A
  pub returns : (m w).0 ≡ ok value
  pub post : Q value (m w).1

-- A context that is done stays done.
pub record Stays (env : Env) : Type 0 where
  pub at : (i j : ℕ) → i ≤ j → env.cancelled i ≡ true → env.cancelled j ≡ true

abbrev pub IsDone : World → Type 0
IsDone w = w.env.cancelled w.tick ≡ true

module _ {R : Db → Db → Type 0} where
  pub From-trans :
      {u v w : World}
      → ((a b c : Db) → R a b → R b c → R a c)
      → From R u v
      → From R v w
      → From R u w
  From-trans t f g = record {
    env = g.env ∙ f.env;
    later = omega (arith, f.later, g.later);
    tables = t _ _ _ f.tables g.tables;
  }

  pub Stays-From : {w v : World} → From R w v → Stays w.env → Stays v.env
  Stays-From f h = subst Stays (sym f.env) h

  pub IsDone-From : {w v : World} → From R w v → Stays w.env → IsDone w → IsDone v
  IsDone-From {w} {v} f h done =
      ap (λ (e : Env). e.cancelled v.tick) f.env ∙ h.at w.tick v.tick f.later done

module _ {A : Type 0} {Q : A → World → Type 0} where
  pub Does-pure : (a : A) (w : World) → Q a w → Does (pure a) w Q
  Does-pure a w h = record { value = a; returns = refl; post = h }

  pub Does-if :
      (b : Bool) {m n : Exec A} {w : World}
      → (b ≡ true → Does m w Q)
      → (b ≡ false → Does n w Q)
      → Does (if b then m else n) w Q
  Does-if true hm hn = hm refl
  Does-if false hm hn = hn refl

  pub Does-weaken :
      {P : A → World → Type 0} {m : Exec A} {w : World}
      → Does m w P
      → ((a : A) (v : World) → P a v → Q a v)
      → Does m w Q
  Does-weaken h k = record { value = h.value; returns = h.returns; post = k _ _ h.post }

Does-continue :
    {A B : Type 0} {Q : B → World → Type 0} (a : A) (r : Result A) (f : A → Exec B) (v : World)
    → ok a ≡ r
    → Does (f a) v Q
    → Does (λ x. continue r f x) v Q
Does-continue {Q} a r f v e h = subst (λ r. Does (λ x. continue r f x) v Q) e h

pub Does-bind :
    {A B : Type 0} {P : A → World → Type 0} {Q : B → World → Type 0} {m : Exec A} {f : A → Exec B}
    {w : World}
    → Does m w P
    → ((a : A) (v : World) → P a v → Does (f a) v Q)
    → Does (m >>= f) w Q
unfolding ◌>>=◌
Does-bind {m} {f} {w} hm hf =
    let h = Does-continue hm.value (m w).0 f (m w).1 (sym hm.returns) (hf _ _ hm.post) in
    record { value = h.value; returns = h.returns; post = h.post }

pub Does-ctx_done :
    {Q : Bool → World → Type 0} (w : World)
    → ((b : Bool) → w.env.cancelled w.tick ≡ b → Q b (step w))
    → Does ctx_done w Q
unfolding ctx_done
Does-ctx_done w h = record { value = _; returns = refl; post = h _ refl }

pub Does-now : {Q : Time → World → Type 0} (w : World) → ((t : Time) → Q t (step w)) → Does now w Q
unfolding now
Does-now w h = record { value = _; returns = refl; post = h _ }

module _ {A : Type 0} where
  attempt_cases :
      (Q : Result A → World → Type 0) (b : Bool) (r s : Result A × World)
      → Q r.0 r.1
      → Q s.0 s.1
      → Q (if b then r else s).0 (if b then r else s).1
  attempt_cases Q true r s hr hs = hr
  attempt_cases Q false r s hr hs = hs

  pub Does-query :
      {Q : Result A → World → Type 0} (f : Db → Result A) (w : World)
      → Q (err io) (step w)
      → Q (f w.db) (step w)
      → Does (attempt (query f)) w Q
  unfolding attempt query
  Does-query {Q} f w failed found = record {
    value = _;
    returns = refl;
    post = attempt_cases Q (w.env.db_fails w.tick) (err io, step w) (f w.db, step w) failed found;
  }

pub Does-change :
    {Q : Result (Unit {0}) → World → Type 0} (f : Db → Db) (w : World)
    → Q (err io) (step w)
    → Q (ok tt) (with_db (f w.db) (step w))
    → Does (attempt (change f)) w Q
unfolding attempt change statement
Does-change {Q} f w failed changed = record {
  value = _;
  returns = refl;
  post =
      attempt_cases Q (w.env.db_fails w.tick) (err io, step w) (ok tt, with_db (f w.db) (step w))
        failed changed;
}
