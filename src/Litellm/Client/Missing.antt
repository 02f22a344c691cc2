-- ===== src/Litellm/Client/Missing.antt =====
-- internal/litellm/client.go, usage.go: which answers say that the gateway no longer has a key.
use ai_self_service.Prelude.{
  String, Bool, true, false, ◌&&◌, Option, none, some, length, ◌==◌, ◌≡◌, ◌⊎◌, ◌↔◌, refl, sym,
  subst, ◌∙◌, arith, str_eq, str_eq_iff,
}
use ai_self_service.Litellm.KeyParams.{KeyInfo}
use ai_self_service.Litellm.Http.{
  Request, get_key_info, key_delete, HttpAnswer, is_gone, Reply, done, refused, Wire, send, return,
  reached, proceed, ◌>>=◌,
}
use ai_self_service.Litellm.Client.{
  is_litellm_not_found, key_call_error, decoded, deleted_key, delete_key, live_key, read_key_info,
  key_info,
}
use ai_self_service.Litellm.Gateway.{check_key}

-- LiteLLM's own error answer, and not one of something in front of it.
abbrev pub OwnNotFound : HttpAnswer → Type 0
OwnNotFound a = (a.status ≡ 404) × (a.error_code ≡ some "404")

-- The record of a key is still readable after a delete.
abbrev pub SoftDeleted : HttpAnswer → Type 0
SoftDeleted a =
    (info : KeyInfo) × (a.status ≡ 200) × (a.key_info ≡ some info) × (info.status ≡ "deleted")

code_lem :
    (o : Option String)
    → (elim o [ none ↦ false | some code ↦ str_eq code "404" ] ≡ true) ↔ (o ≡ some "404")
code_lem none = ground arith
code_lem (some c) = ground (arith, str_eq_iff c "404")

own_lem : (a : HttpAnswer) → ((a.status == 404 && is_litellm_not_found a) ≡ true) ↔ OwnNotFound a
unfolding is_litellm_not_found
own_lem a = ground (arith, code_lem a.error_code)

-- A reply that says that the key is gone.
unfoldable pub says_gone : {A : Type 0} → Reply A → Bool
says_gone (done a) = false
says_gone (refused e) = is_gone e

call_error_gone :
    (route : String) (a : HttpAnswer) → (is_gone (key_call_error route a) ≡ true) ↔ OwnNotFound a
unfolding key_call_error is_gone
call_error_gone route a = ground (arith, own_lem a)

live_gone :
    (info : KeyInfo) (v : Wire) → says_gone (live_key info v).0 ≡ str_eq info.status "deleted"
unfolding live_key says_gone is_gone
live_gone info v = ground arith

-- The record of a key, as it was decoded.
record_gone :
    (o : Option KeyInfo) (v : Wire)
    → (says_gone ((decoded "/key/info" o >>= live_key) v).0 ≡ true)
      ↔ ((info : KeyInfo) × (o ≡ some info) × (info.status ≡ "deleted"))
unfolding decoded live_key says_gone is_gone ◌>>=◌
record_gone none v = (λ h. absurd (ground arith), λ (info, e, d). cc)
record_gone (some info) v = (
  λ h. (info, refl, (str_eq_iff info.status "deleted").0 (sym (live_gone info v) ∙ h)),
  λ (i, e, d). live_gone info v ∙ (str_eq_iff info.status "deleted").1 (ground (arith, e, d)),
)

read_gone :
    (a : HttpAnswer) (v : Wire)
    → (says_gone (read_key_info a v).0 ≡ true) ↔ (OwnNotFound a ⊎ SoftDeleted a)
unfolding read_key_info says_gone
read_gone a v = ground (arith, record_gone a.key_info v, call_error_gone "/key/info" a)

dropped :
    {A B : Type 0} (r : Reply A) (b : B) (v : Wire)
    → says_gone (proceed r (λ _. return b) v).0 ≡ says_gone r
unfolding says_gone
dropped (done a) b v = refl
dropped (refused e) b v = refl

-- The answer that came to the next request.
abbrev pub Answers : Wire → Request → HttpAnswer → Type 0
Answers w q a = w.answers (length w.requests) q ≡ some a

some_same : {a b : HttpAnswer} → (let o : Option HttpAnswer = some a in o) ≡ some b → a ≡ b
some_same e = ground arith

same_answer :
    (a b : HttpAnswer)
    → (let o : Option HttpAnswer = some a in o) ≡ some b
    → OwnNotFound b ⊎ SoftDeleted b
    → OwnNotFound a ⊎ SoftDeleted a
same_answer a b e h = subst (λ x. OwnNotFound x ⊎ SoftDeleted x) (sym (some_same e)) h

same_delete :
    (a b : HttpAnswer)
    → (let o : Option HttpAnswer = some a in o) ≡ some b
    → (b.status ≡ 200) ⊎ OwnNotFound b
    → (a.status ≡ 200) ⊎ OwnNotFound a
same_delete a b e h = subst (λ x. (x.status ≡ 200) ⊎ OwnNotFound x) (sym (some_same e)) h

checked :
    (o : Option HttpAnswer) (v : Wire)
    → (says_gone (proceed (reached o) read_key_info v).0 ≡ true)
      ↔ ((a : HttpAnswer) × (o ≡ some a) × (OwnNotFound a ⊎ SoftDeleted a))
unfolding says_gone is_gone
checked none v = (λ h. absurd (ground arith), λ (a, e, h). cc)
checked (some a) v =
    let r = read_gone a v in (λ h. (a, refl, r.0 h), λ (b, e, h). r.1 (same_answer a b e h))

-- A delete that found no key is done.
deleted_lem :
    (a : HttpAnswer) (v : Wire)
    → ((deleted_key a v).0 ≡ done tt) ↔ ((a.status ≡ 200) ⊎ OwnNotFound a)
unfolding deleted_key
deleted_lem a v = ground (arith, call_error_gone "/key/delete" a)

deleted_by :
    (o : Option HttpAnswer) (v : Wire)
    → ((proceed (reached o) deleted_key v).0 ≡ done tt)
      ↔ ((a : HttpAnswer) × (o ≡ some a) × ((a.status ≡ 200) ⊎ OwnNotFound a))
deleted_by none v = (λ h. cc, λ (a, e, h). cc)
deleted_by (some a) v =
    let r = deleted_lem a v in (λ h. (a, refl, r.0 h), λ (b, e, h). r.1 (same_delete a b e h))

-- A check of a key says that the gateway no longer has it exactly for LiteLLM's own error answer
-- with the code 404, and for a readable record whose status is that it was deleted: not for another 404, nor
-- for a failure. And a delete is done exactly if it was answered with 200 or with that error answer.
pub check_key-delete_key_iff :
    (ref : String) (w : Wire)
    → ((says_gone (check_key ref w).0 ≡ true)
        ↔ ((a : HttpAnswer) × Answers w (get_key_info ref) a × (OwnNotFound a ⊎ SoftDeleted a)))
      × (((delete_key ref w).0 ≡ done tt)
          ↔ ((a : HttpAnswer) × Answers w (key_delete ref) a × ((a.status ≡ 200) ⊎ OwnNotFound a)))
unfolding check_key delete_key key_info send ◌>>=◌
check_key-delete_key_iff ref w =
    let q = dropped (key_info ref w).0 tt (key_info ref w).1 in
    let c = checked (w.answers (length w.requests) (get_key_info ref)) _ in
    (
      (λ h. c.0 (sym q ∙ h), λ x. q ∙ c.1 x),
      deleted_by (w.answers (length w.requests) (key_delete ref)) _,
    )
