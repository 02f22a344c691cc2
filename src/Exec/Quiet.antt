-- ===== src/Exec/Quiet.antt =====
-- Actions that change nothing outside: the tables, the calls made and the environment stay.
use ai_self_service.Prelude.{ℕ, Bool, true, false, ◌≡◌, refl, ◌∙◌, arith, if◌then◌else◌}
use ai_self_service.Database.Models.{Time}
use ai_self_service.Database.Errors.{Error, Result, ok, err}
use ai_self_service.Database.Tables.{Db}
use ai_self_service.Database.Keys.{days_after}
use ai_self_service.Exec.{
  Exec, World, pure, raise, continue, now, ctx_done, query, random, token, attempt, ◌>>=◌,
}

-- Two worlds that differ in their step number only.
pub record Same (w v : World) : Type 0 where
  pub db : v.db ≡ w.db
  pub sent : v.sent ≡ w.sent
  pub env : v.env ≡ w.env

pub record Quiet {A : Type 0} (m : Exec A) : Type 0 where
  pub at : (w : World) → Same w (m w).1

abbrev pub same : {w : World} → Same w w
same = record { db = refl; sent = refl; env = refl }

pub Same-trans : {u v w : World} → Same u v → Same v w → Same u w
Same-trans s t = record { db = t.db ∙ s.db; sent = t.sent ∙ s.sent; env = t.env ∙ s.env }

module _ {A : Type 0} where
  pub Quiet-pure : (a : A) → Quiet (pure a)
  Quiet-pure a = record { at = λ w. same }

  pub Quiet-raise : (e : Error) → Quiet (raise {A = A} e)
  Quiet-raise e = record { at = λ w. same }

  pub Quiet-query : (f : Db → Result A) → Quiet (query f)
  unfolding query
  Quiet-query f = record {
    at = λ w. record { db = ground arith; sent = ground arith; env = ground arith };
  }

pub Quiet-now : Quiet now
unfolding now
Quiet-now = record { at = λ w. record { db = refl; sent = refl; env = refl } }

pub Quiet-ctx_done : Quiet ctx_done
unfolding ctx_done
Quiet-ctx_done = record { at = λ w. record { db = refl; sent = refl; env = refl } }

pub Quiet-random : Quiet random
unfolding random
Quiet-random = record { at = λ w. record { db = refl; sent = refl; env = refl } }

pub Quiet-token : Quiet token
unfolding token
Quiet-token = record { at = λ w. record { db = refl; sent = refl; env = refl } }

pub Quiet-days_after : (t : Time) (days : ℕ) → Quiet (days_after t days)
unfolding days_after
Quiet-days_after t days = record { at = λ w. record { db = refl; sent = refl; env = refl } }

module _ {A B : Type 0} where
  continue-Quiet :
      (r : Result A) (f : A → Exec B) (w : World)
      → ((a : A) → Quiet (f a))
      → Same w (continue r f w).1
  continue-Quiet (ok a) f w h = (h a).at w
  continue-Quiet (err e) f w h = same

  pub Quiet-bind :
      {m : Exec A} {f : A → Exec B} → Quiet m → ((a : A) → Quiet (f a)) → Quiet (m >>= f)
  unfolding ◌>>=◌
  Quiet-bind {m} {f} hm hf = record {
    at = λ w. Same-trans (hm.at w) (continue-Quiet (m w).0 f (m w).1 hf);
  }

  continue_after :
      (G : World → Type 0) (r : Result A) (f : A → Exec B) (w v : World)
      → Same w v
      → ((v : World) → Same w v → G v)
      → ((a : A) (v : World) → Same w v → G (f a v).1)
      → G (continue r f v).1
  continue_after G (ok a) f w v s stop go = go a v s
  continue_after G (err e) f w v s stop go = stop v s

  -- What holds after a quiet action failed, and after what follows it, holds after both.
  pub Quiet-then :
      (G : World → Type 0) {m : Exec A} (f : A → Exec B) (w v : World)
      → Same w v
      → Quiet m
      → ((v : World) → Same w v → G v)
      → ((a : A) (v : World) → Same w v → G (f a v).1)
      → G ((m >>= f) v).1
  unfolding ◌>>=◌
  Quiet-then G {m} f w v s q stop go =
      continue_after G (m v).0 f w (m v).1 (Same-trans s (q.at v)) stop go

pub Quiet-attempt : {A : Type 0} {m : Exec A} → Quiet m → Quiet (attempt m)
unfolding attempt
Quiet-attempt h = record { at = h.at }

pub Quiet-if :
    {A : Type 0} {m n : Exec A} (b : Bool) → Quiet m → Quiet n → Quiet (if b then m else n)
Quiet-if true hm hn = hm
Quiet-if false hm hn = hn
