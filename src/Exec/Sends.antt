-- ===== src/Exec/Sends.antt =====
-- What an action sends to the gateway: from a world, a list of calls, each of which satisfies a
-- predicate. One rule for each way to build an action.
use ai_self_service.Prelude.{
  Bool, true, false, List, [], ◌∷◌, ◌++◌, All, ◌≡◌, refl, sym, ap, ◌∙◌, arith, if◌then◌else◌, ℕ,
  zero, suc, append_nil, append_assoc,
}
use ai_self_service.Database.Errors.{Result, ok, err}
use ai_self_service.Database.Tables.{Db}
use ai_self_service.Exec.{
  finish, run_in_tx, token, Exec, World, GatewayCall, step, pure, continue, now, ctx_done, query,
  statement, change, settle, call, random, attempt, flagged_tx, commit_flag, after_record,
  after_change, ◌>>=◌,
}

-- An action that makes no call.
pub record Silent {A : Type 0} (m : Exec A) : Type 0 where
  pub at : (w : World) → (m w).1.sent ≡ w.sent

pub record Sends {A : Type 0} (P : GatewayCall → Type 0) (w : World) (m : Exec A) : Type 0 where
  pub calls : List GatewayCall
  pub trace : (m w).1.sent ≡ w.sent ++ calls
  pub each : All P calls

module _ {A : Type 0} where
  pub Silent-pure : (a : A) → Silent (pure a)
  Silent-pure a = record { at = λ w. refl }

  pub Silent-query : (f : Db → Result A) → Silent (query f)
  unfolding query
  Silent-query f = record { at = λ w. ground arith }

  settle_silent : (r : Result (A × Db)) (w : World) → (settle r w).1.sent ≡ w.sent
  settle_silent (ok (a, d)) w = refl
  settle_silent (err e) w = refl

  pub Silent-statement : (f : Db → Result (A × Db)) → Silent (statement f)
  unfolding statement
  Silent-statement f = record { at = λ w. ground (arith, settle_silent (f w.db) (step w)) }

  pub Silent-attempt : {m : Exec A} → Silent m → Silent (attempt m)
  unfolding attempt
  Silent-attempt h = record { at = h.at }

pub Silent-if :
    {A : Type 0} {m n : Exec A} (b : Bool) → Silent m → Silent n → Silent (if b then m else n)
Silent-if true hm hn = hm
Silent-if false hm hn = hn

pub Silent-change : (f : Db → Db) → Silent (change f)
unfolding change
Silent-change f = Silent-statement (λ d. ok (tt, f d))

pub Silent-now : Silent now
unfolding now
Silent-now = record { at = λ w. refl }

finish-Silent : {A : Type 0} (d : Db) (r : Result A × World) → (finish d r).1.sent ≡ r.1.sent
finish-Silent d (ok a, w) = ground arith
finish-Silent d (err e, w) = refl

pub Silent-run_in_tx : {A : Type 0} {m : Exec A} → Silent m → Silent (run_in_tx m)
unfolding run_in_tx
Silent-run_in_tx {m} h = record {
  at = λ w. ground (arith, finish-Silent w.db (m (step w)), h.at (step w));
}

pub Silent-token : Silent token
unfolding token
Silent-token = record { at = λ w. refl }

pub Silent-ctx_done : Silent ctx_done
unfolding ctx_done
Silent-ctx_done = record { at = λ w. refl }

pub Silent-random : Silent random
unfolding random
Silent-random = record { at = λ w. refl }

commit_flag_silent : (d : Db) (b : Bool) (w : World) → (commit_flag d b w).1.sent ≡ w.sent
commit_flag_silent d b w = ground arith

after_record_silent :
    (d : Db) (r : Result (Unit {0}) × World) → (after_record d r).1.sent ≡ r.1.sent
after_record_silent d (ok u, w) = commit_flag_silent d true w
after_record_silent d (err e, w) = refl

after_change-Silent :
    (d : Db) (m : Exec (Unit {0})) (r : Result ℕ × World)
    → Silent m
    → (after_change d m r).1.sent ≡ r.1.sent
after_change-Silent d m (err e, w) h = refl
after_change-Silent d m (ok zero, w) h = commit_flag_silent d false w
after_change-Silent d m (ok (suc n), w) h = after_record_silent d (m w) ∙ h.at w

pub Silent-flagged_tx :
    {m : Exec ℕ} {n : Exec (Unit {0})} → Silent m → Silent n → Silent (flagged_tx m n)
unfolding flagged_tx
Silent-flagged_tx {m} {n} hm hn = record {
  at = λ w. ground (arith, after_change-Silent w.db n (m (step w)) hn, hm.at (step w));
}

module _ {A B : Type 0} where
  continue-Silent :
      (r : Result A) (f : A → Exec B) (w : World)
      → ((a : A) → Silent (f a))
      → (continue r f w).1.sent ≡ w.sent
  continue-Silent (ok a) f w h = (h a).at w
  continue-Silent (err e) f w h = refl

  pub Silent-bind :
      {m : Exec A} {f : A → Exec B} → Silent m → ((a : A) → Silent (f a)) → Silent (m >>= f)
  unfolding ◌>>=◌
  Silent-bind {m} {f} hm hf = record { at = λ w. continue-Silent (m w).0 f (m w).1 hf ∙ hm.at w }

All-append : {A : Type 0} (P : A → Type 0) (xs ys : List A) → All P xs → All P ys → All P (xs ++ ys)
All-append P [] ys h k = k
All-append P (x ∷ xs) ys (p, h) k = (p, All-append P xs ys h k)

module _ {P : GatewayCall → Type 0} where
  pub Sends-Silent : {A : Type 0} {m : Exec A} (w : World) → Silent m → Sends P w m
  Sends-Silent w h = record { calls = []; trace = h.at w ∙ sym (append_nil w.sent); each = tt }

  pub Sends-call : (w : World) (c : GatewayCall) → P c → Sends P w (call c)
  unfolding call
  Sends-call w c p = record { calls = c ∷ []; trace = refl; each = (p, tt) }

  pub Sends-attempt : {A : Type 0} {m : Exec A} (w : World) → Sends P w m → Sends P w (attempt m)
  unfolding attempt
  Sends-attempt w h = record { calls = h.calls; trace = h.trace; each = h.each }

  pub Sends-if :
      {A : Type 0} {m n : Exec A} (w : World) (b : Bool)
      → (b ≡ true → Sends P w m)
      → (b ≡ false → Sends P w n)
      → Sends P w (if b then m else n)
  Sends-if w true hm hn = hm refl
  Sends-if w false hm hn = hn refl

  module _ {A B : Type 0} where
    continue-Sends :
        (r : Result A) (f : A → Exec B) (w : World)
        → ((a : A) → r ≡ ok a → Sends P w (f a))
        → Sends P w (continue r f)
    continue-Sends (ok a) f w h = record {
      calls = (h a refl).calls;
      trace = (h a refl).trace;
      each = (h a refl).each;
    }
    continue-Sends (err e) f w h = record { calls = []; trace = sym (append_nil w.sent); each = tt }

    pub Sends-bind :
        {m : Exec A} {f : A → Exec B} (w : World)
        → Sends P w m
        → ((a : A) → (m w).0 ≡ ok a → Sends P (m w).1 (f a))
        → Sends P w (m >>= f)
    unfolding ◌>>=◌
    Sends-bind {m} {f} w hm hf =
        let k = continue-Sends (m w).0 f (m w).1 hf in
        record {
          calls = hm.calls ++ k.calls;
          trace =
              k.trace
              ∙ ap (λ (l : List GatewayCall). l ++ k.calls) hm.trace
              ∙ append_assoc w.sent hm.calls k.calls;
          each = All-append P hm.calls k.calls hm.each k.each;
        }
