-- ===== src/Handlers/Flash/Once.antt =====
-- internal/handlers/flash.go: a key is shown to its user, once.
use ai_self_service.Prelude.{
  ℕ, ◌+◌, ◌≤◌, String, Bool, true, false, Option, none, some, [], ◌∷◌, ◌≡◌, ◌≢◌, refl, ap, ◌∙◌,
  arith, str_eq, str_eq_iff, if◌then◌else◌, filter, find?,
}
use ai_self_service.Database.Models.{Time}
use ai_self_service.Handlers.Flash.{
  FlashEntry, KeyFlash, flash_ttl, is_current, gc, has_token, without, put, redeem, take,
}

find?-filter-none :
    (p q : FlashEntry → Bool) (f : KeyFlash) → find? p f ≡ none → find? p (filter q f) ≡ none
unfolding find? filter
find?-filter-none p q [] h = refl
find?-filter-none p q (e ∷ f) h = ground (arith, find?-filter-none p q f)

find?-without : (t : String) (f : KeyFlash) → find? (has_token t) (without t f) ≡ none
unfolding find? filter without
find?-without t [] = refl
find?-without t (e ∷ f) = ground (arith, find?-without t f)

-- Without an entry there is nothing to take.
take-none :
    (user : ℕ) (t : String) (at_gc at : Time) (f : KeyFlash)
    → find? (has_token t) f ≡ none
    → (take user t at_gc at f).0 ≡ ""
unfolding take redeem gc
take-none user t at_gc at f h =
    ground (arith, find?-filter-none (has_token t) (is_current at_gc) f h)

redeem_lem :
    (user : ℕ) (t : String) (at : Time) (f : KeyFlash) (o : Option FlashEntry)
    → find? (has_token t) f ≡ o
    → (redeem user t at f o).0 ≢ ""
    → (e : FlashEntry) × (o ≡ some e)
      × (e.user_id ≡ user)
      × (at ≤ e.expires_at)
      × ((redeem user t at f o).0 ≡ e.key)
      × ((redeem user t at f o).1 ≡ without t f)
unfolding redeem
redeem_lem user t at f none h shown = absurd (shown refl)
redeem_lem user t at f (some e) h shown =
    (e, refl, ground arith, ground arith, ground arith, ground arith)

find?-filter_found :
    (p q : FlashEntry → Bool) (f : KeyFlash) (e : FlashEntry)
    → find? p (filter q f) ≡ some e
    → q e ≡ true
unfolding find? filter
find?-filter_found p q [] e h = cc
find?-filter_found p q (x ∷ f) e h = ground (arith, find?-filter_found p q f e)

shown_lem :
    (b : Bool) (f : KeyFlash) (r : String × KeyFlash)
    → (let z : String × KeyFlash = if b then ("", f) else r in z.0) ≢ ""
    → b ≡ false
shown_lem true f r h = absurd (h refl)
shown_lem false f r h = refl

current_lem : (at : Time) (e : FlashEntry) → is_current at e ≡ true → at ≤ e.expires_at
current_lem at e h = ground arith

-- A token that is not empty.
take_redeems :
    (user : ℕ) (t : String) (at_gc at : Time) (f : KeyFlash)
    → str_eq t "" ≡ false
    → take user t at_gc at f ≡ redeem user t at (gc at_gc f) (find? (has_token t) (gc at_gc f))
unfolding take
take_redeems user t at_gc at f h = ground arith

-- Where `Take` shows something, it is the key of an entry of that user that has not expired, and after
-- that the token shows nothing more, to nobody and at no time.
pub take-Once :
    (user : ℕ) (t : String) (at_gc at : Time) (f : KeyFlash)
    → (take user t at_gc at f).0 ≢ ""
    → (e : FlashEntry) × (find? (has_token t) (gc at_gc f) ≡ some e)
      × (e.user_id ≡ user)
      × (at_gc ≤ e.expires_at)
      × (at ≤ e.expires_at)
      × ((take user t at_gc at f).0 ≡ e.key)
      × ((user' : ℕ) (at_gc' at' : Time)
          → (take user' t at_gc' at' (take user t at_gc at f).1).0 ≡ "")
unfolding take
take-Once user t at_gc at f shown =
    let here = gc at_gc f in
    let q = take_redeems user t at_gc at f (shown_lem (str_eq t "") f _ shown) in
    let r =
      redeem_lem user t at here (find? (has_token t) here) refl
        (λ z. shown (ap (λ (x : String × KeyFlash). x.0) q ∙ z)) in
    (
      r.0,
      r.1,
      r.2,
      current_lem at_gc r.0
          (find?-filter_found (has_token t) (is_current at_gc) f r.0 (unfold gc in r.1)),
      r.3,
      ap (λ (x : String × KeyFlash). x.0) q ∙ r.4,
      λ user' at_gc' at'. take-none user' t at_gc' at' (take user t at_gc at f).1 (
          ap (λ (x : String × KeyFlash). find? (has_token t) x.1) q
          ∙ ap (find? (has_token t)) r.5
          ∙ find?-without t here),
    )

-- A key that was put is shown to its user until it expires.
pub take-put :
    (user : ℕ) (key t : String) (at_gc at at_gc' at' : Time) (f : KeyFlash)
    → t ≢ ""
    → at_gc' ≤ at + flash_ttl
    → at' ≤ at + flash_ttl
    → (take user t at_gc' at' (put user key (some t) at_gc at f).1).0 ≡ key
unfolding take put gc redeem filter find?
take-put user key t at_gc at at_gc' at' f named soon soon' =
    ground (arith, str_eq_iff t "", str_eq_iff t t)
