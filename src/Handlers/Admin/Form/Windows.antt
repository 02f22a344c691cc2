-- ===== src/Handlers/Admin/Form/Windows.antt =====
-- internal/handlers/admin.go: what the form's allowance windows may be.
use ai_self_service.Prelude.{
  ℕ, suc, ◌+◌, ◌<◌, String, Bool, true, false, not, ◌&&◌, ◌||◌, Option, none, some, List, [], ◌∷◌,
  ◌++◌, ◌≡◌, ◌⊎◌, inl, inr, refl, sym, ap, ◌∙◌, subst, arith, ◌==◌, ltb, str_eq, any, All, length,
  if◌then◌else◌, Bool-cases, ==_iff, append_assoc, length-append,
}
use ai_self_service.Keyprovider.{Float64, is_nan, le_zero}
use ai_self_service.Database.Models.{ProfileQuota}
use ai_self_service.Litellm.{is_valid_quota_period, above_zero}
use ai_self_service.Handlers.Admin.Form.{
  GoText, FormError, Parsed, accepted, rejected, is_inf, above, period_hours, period_of, next,
  prepend, add_row, read_amount, read_rows, exceeded, unreachable_pair, bound, check_windows,
  parse_quota_windows,
}

-- A window as the gateway can enforce it.
unfoldable pub is_window : ProfileQuota → Bool
unfolding above_zero
is_window q =
    is_valid_quota_period q.period
    && not (str_eq q.period "")
    && above_zero q.budget
    && not (is_inf q.budget)

abbrev pub has_period : String → ProfileQuota → Bool
has_period p q = str_eq p q.period

-- No period twice.
abbrev pub Distinct : List ProfileQuota → Type 0
Distinct [] = Unit
Distinct (q ∷ qs) = (any (has_period q.period) qs ≡ false) × Distinct qs

-- A shorter window that allows more than the longer one.
unfoldable pub exceeds : ProfileQuota → ProfileQuota → Bool
unfolding above
exceeds a b = ltb (period_hours a.period) (period_hours b.period) && above a.budget b.budget

pub record IsAccepted (qs : List ProfileQuota) : Type 0 where
  pub each : All (λ q. is_window q ≡ true) qs
  pub distinct : Distinct qs
  pub binding : All (λ a. All (λ b. exceeds a b ≡ false) qs) qs

prepend_lem :
    (q : ProfileQuota) (rest : Parsed (List ProfileQuota)) (qs : List ProfileQuota)
    → prepend q rest ≡ accepted qs
    → (l : List ProfileQuota) × (rest ≡ accepted l) × (qs ≡ q ∷ l)
prepend_lem q (accepted l) qs e = (l, refl, ground arith)
prepend_lem q (rejected x) qs e = cc

-- Where a row is added: it was in order, its period is new, and the rest was accepted.
record Added (period : String) (seen : List String) (rest : Parsed (List ProfileQuota))
    (qs : List ProfileQuota) : Type 0 where
  q : ProfileQuota
  others : List ProfileQuota
  is : qs ≡ q ∷ others
  same : q.period ≡ period
  ok : is_window q ≡ true
  fresh : any (λ (s : String). str_eq s q.period) seen ≡ false
  tail : rest ≡ accepted others

reject_unless :
    (b : Bool) (e : FormError) (r : Parsed (List ProfileQuota)) (qs : List ProfileQuota)
    → (let p : Parsed (List ProfileQuota) = if b then rejected e else r in p) ≡ accepted qs
    → (b ≡ false) × (r ≡ accepted qs)
reject_unless true e r qs h = cc
reject_unless false e r qs h = (refl, h)

in_order :
    (x y n i z : Bool)
    → (not x || y) ≡ false
    → (n || i) ≡ false
    → z ≡ false
    → (x && not y && (not z && not n) && not i) ≡ true
in_order x y n i z h k l = ground arith

add_row_lem :
    (amount : Float64) (period : String) (seen : List String) (rest : Parsed (List ProfileQuota))
    (qs : List ProfileQuota)
    → (is_nan amount || is_inf amount) ≡ false
    → le_zero amount ≡ false
    → add_row amount period seen rest ≡ accepted qs
    → Added period seen rest qs
unfolding add_row is_window above_zero
add_row_lem amount period seen rest qs n z e =
    let h = reject_unless _ _ _ qs e in
    let i = reject_unless _ _ _ qs h.1 in
    let j = prepend_lem _ rest qs i.1 in
    record {
      q = record { id = 0; profile_id = 0; budget = amount; period = period };
      others = j.0;
      is = j.2;
      same = refl;
      ok = in_order _ _ _ _ _ h.0 n z;
      fresh = i.0;
      tail = j.1;
    }

either_row :
    (a : Float64) (period : String) (seen : List String) (skipped rest : Parsed (List ProfileQuota))
    (qs : List ProfileQuota)
    → (is_nan a || is_inf a) ≡ false
    → (le_zero a ≡ true) ⊎ (le_zero a ≡ false)
    → (let p = if le_zero a then skipped else add_row a period seen rest in p) ≡ accepted qs
    → (skipped ≡ accepted qs) ⊎ Added period seen rest qs
either_row a period seen skipped rest qs n (inl z) e = inl (ground arith)
either_row a period seen skipped rest qs n (inr z) e =
    inr (add_row_lem a period seen rest qs n z (ground arith))

row_lem :
    (raw : String) (amount : Option Float64) (period : String) (seen : List String)
    (skipped rest : Parsed (List ProfileQuota)) (qs : List ProfileQuota)
    → read_amount raw amount period seen skipped rest ≡ accepted qs
    → (skipped ≡ accepted qs) ⊎ Added period seen rest qs
unfolding read_amount
row_lem raw none period seen skipped rest qs e = cc
row_lem raw (some a) period seen skipped rest qs e =
    let h = reject_unless (is_nan a || is_inf a) _ _ qs e in
    either_row a period seen skipped rest qs h.0 (Bool-cases (le_zero a)) h.1

-- What was read: windows in order, with new periods that are all different.
record Read (seen : List String) (qs : List ProfileQuota) : Type 0 where
  each : All (λ q. is_window q ≡ true) qs
  distinct : Distinct qs
  fresh : All (λ (q : ProfileQuota). any (λ (s : String). str_eq s q.period) seen ≡ false) qs

not_among :
    (p : String) (seen : List String) (qs : List ProfileQuota)
    → All (λ (q : ProfileQuota). any (λ (s : String). str_eq s q.period) (p ∷ seen) ≡ false) qs
    → (any (has_period p) qs ≡ false)
      × All (λ (q : ProfileQuota). any (λ (s : String). str_eq s q.period) seen ≡ false) qs
unfolding any
not_among p seen [] h = (refl, tt)
not_among p seen (q ∷ qs) (h, hs) =
    let r = not_among p seen qs hs in (ground (arith, r.0), (ground arith, r.1))

Added-Read :
    (period : String) (seen : List String) (rest : Parsed (List ProfileQuota))
    (qs : List ProfileQuota) (a : Added period seen rest qs)
    → Read (period ∷ seen) a.others
    → Read seen qs
Added-Read period seen rest qs a r =
    let n = not_among a.q.period seen a.others (
      subst
        (λ p.
          All (λ (q : ProfileQuota). any (λ (s : String). str_eq s q.period) (p ∷ seen) ≡ false)
            a.others)
        (sym a.same) r.fresh) in
    subst (Read seen) (sym a.is)
      (record { each = (a.ok, r.each); distinct = (n.0, r.distinct); fresh = (a.fresh, n.1) })

accepted_is :
    (l qs : List ProfileQuota)
    → (let p : Parsed (List ProfileQuota) = accepted l in p) ≡ accepted qs
    → l ≡ qs
accepted_is l qs e = ground arith

blank_or :
    (b : Bool) (x y : Parsed (List ProfileQuota)) (qs : List ProfileQuota)
    → (if b then x else y) ≡ accepted qs
    → (x ≡ accepted qs) ⊎ (y ≡ accepted qs)
blank_or true x y qs e = inl e
blank_or false x y qs e = inr e

read_rows-Read :
    (t : GoText) (amounts periods seen : List String) (qs : List ProfileQuota)
    → read_rows t amounts periods seen ≡ accepted qs
    → Read seen qs
unfolding read_rows
read_rows-Read t [] periods seen qs e =
    subst (Read seen) (accepted_is [] qs e) (record { each = tt; distinct = tt; fresh = tt })
read_rows-Read t (amount ∷ amounts) periods seen qs e =
    let raw = t.trim_space amount in
    let number = t.commas_to_dots raw in
    let period = period_of t periods in
    let skipped = read_rows t amounts (next periods) seen in
    let rest = read_rows t amounts (next periods) (period ∷ seen) in
    elim (blank_or (str_eq raw "") skipped
      (read_amount number (t.parse_float number) period seen skipped rest) qs e) [
        | inl s ↦ read_rows-Read t amounts (next periods) seen qs s
        | inr r ↦ elim (row_lem number (t.parse_float number) period seen skipped rest qs r) [
          | inl s ↦ read_rows-Read t amounts (next periods) seen qs s
          | inr a ↦
              Added-Read period seen rest qs a
                (read_rows-Read t amounts (next periods) (period ∷ seen) a.others a.tail)
        ]
      ]

-- The second half: no window makes another one pointless.
abbrev Agrees : ℕ → ProfileQuota → ℕ → List ProfileQuota → Type 0
Agrees i a j [] = Unit
Agrees i a j (b ∷ bs) = ((i ≡ j) → b ≡ a) × Agrees i a (suc j) bs

Agrees-past : (i j : ℕ) (a : ProfileQuota) (bs : List ProfileQuota) → i < j → Agrees i a j bs
Agrees-past i j a [] h = tt
Agrees-past i j a (b ∷ bs) h = (λ e. grind arith, Agrees-past i (suc j) a bs (omega arith))

Agrees-at :
    (pre : List ProfileQuota) (a : ProfileQuota) (rest : List ProfileQuota) (j : ℕ)
    → Agrees (j + length pre) a j (pre ++ a ∷ rest)
Agrees-at [] a rest j = (λ e. refl, Agrees-past _ _ a rest (omega arith))
Agrees-at (x ∷ pre) a rest j = (
  λ e. grind arith,
  subst (λ n. Agrees n a (suc j) (pre ++ a ∷ rest)) (omega arith) (Agrees-at pre a rest (suc j)),
)

exceeds_self : (a : ProfileQuota) → exceeds a a ≡ false
unfolding exceeds
exceeds_self a = ground arith

step_none :
    (same c : Bool) (b : ProfileQuota) (r : Option ProfileQuota)
    → (let o : Option ProfileQuota = if same then r else if c then some b else r in o) ≡ none
    → (r ≡ none) × ((same ≡ true) ⊎ (c ≡ false))
step_none true c b r e = (e, inl refl)
step_none false true b r e = cc
step_none false false b r e = (e, inr refl)

pair_none :
    (o : Option ProfileQuota) (a : ProfileQuota) (later : Option (ProfileQuota × ProfileQuota))
    → elim o [ none ↦ later | some b ↦ some (a, b) ] ≡ none
    → (o ≡ none) × (later ≡ none)
pair_none none a later e = (refl, e)
pair_none (some b) a later e = cc

exceeded_lem :
    (i : ℕ) (a : ProfileQuota) (j : ℕ) (bs : List ProfileQuota)
    → Agrees i a j bs
    → exceeded i a j bs ≡ none
    → All (λ b. exceeds a b ≡ false) bs
unfolding exceeded exceeds
exceeded_lem i a j [] g e = tt
exceeded_lem i a j (b ∷ bs) (g, gs) e =
    let s = step_none (i == j) (exceeds a b) b (exceeded i a (suc j) bs) e in
    (
      elim s.1 [
        | inl q ↦ subst (λ x. exceeds a x ≡ false) (sym (g ((==_iff i j).0 q))) (exceeds_self a)
        | inr q ↦ q
      ],
      exceeded_lem i a (suc j) bs gs s.0,
    )

length_snoc :
    (pre : List ProfileQuota) (a : ProfileQuota) → suc (length pre) ≡ length (pre ++ a ∷ [])
length_snoc pre a = ground (arith, length-append pre (a ∷ []))

pair_lem :
    (qs pre rest : List ProfileQuota)
    → qs ≡ pre ++ rest
    → unreachable_pair qs (length pre) rest ≡ none
    → All (λ a. All (λ b. exceeds a b ≡ false) qs) rest
unfolding unreachable_pair
pair_lem qs pre [] h e = tt
pair_lem qs pre (a ∷ rest) h e =
    let s =
      pair_none (exceeded (length pre) a 0 qs) a (unreachable_pair qs (suc (length pre)) rest) e in
    let at = subst (λ n. Agrees n a 0 (pre ++ a ∷ rest)) (omega arith) (Agrees-at pre a rest 0) in
    let g = subst (Agrees (length pre) a 0) (sym h) at in
    (
      exceeded_lem (length pre) a 0 qs g s.0,
      pair_lem qs (pre ++ a ∷ []) rest (h ∙ sym (append_assoc pre (a ∷ []) rest))
          (subst (λ n. unreachable_pair qs n rest ≡ none) (length_snoc pre a) s.1),
    )

checked :
    (qs l : List ProfileQuota) (o : Option (ProfileQuota × ProfileQuota))
    → bound l o ≡ accepted qs
    → (o ≡ none) × (l ≡ qs)
unfolding bound
checked qs l none e = (refl, accepted_is l qs e)
checked qs l (some (a, b)) e = cc

check_lem :
    (p : Parsed (List ProfileQuota)) (qs : List ProfileQuota)
    → check_windows p ≡ accepted qs
    → (p ≡ accepted qs) × (unreachable_pair qs 0 qs ≡ none)
unfolding check_windows
check_lem (rejected x) qs e = cc
check_lem (accepted l) qs e =
    let c = checked qs l (unreachable_pair l 0 l) e in
    (ap accepted c.1, subst (λ x. unreachable_pair x 0 x ≡ none) c.1 c.0)

-- The windows that the profile form is accepted with have an amount above zero that is a number, and a
-- period that the gateway knows; no period stands twice; and no shorter period allows more than a
-- longer one.
pub parse_quota_windows-IsAccepted :
    (t : GoText) (amounts periods : List String) (qs : List ProfileQuota)
    → parse_quota_windows t amounts periods ≡ accepted qs
    → IsAccepted qs
unfolding parse_quota_windows
parse_quota_windows-IsAccepted t amounts periods qs e =
    let c = check_lem (read_rows t amounts periods []) qs e in
    let r = read_rows-Read t amounts periods [] qs c.0 in
    record { each = r.each; distinct = r.distinct; binding = pair_lem qs [] qs refl c.1 }
