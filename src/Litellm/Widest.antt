-- ===== src/Litellm/Widest.antt =====
-- internal/litellm/quota.go: what `WidestWindow` returns.
use ai_self_service.Prelude.{
  ℕ, zero, suc, ◌+◌, ◌≤◌, ◌<◌, Bool, true, false, List, [], ◌∷◌, ◌++◌, All, ◌≡◌, ◌⊎◌, inl, inr,
  refl, sym, ap, ◌∙◌, subst, arith, ltb, if◌then◌else◌, length, take,
}
use ai_self_service.Keyprovider.{QuotaWindow}
use ai_self_service.Litellm.{period_rank, window_at, widest_index, without, widest_window}

abbrev rank : QuotaWindow → ℕ
rank w = period_rank w.period

abbrev after : ℕ → List QuotaWindow → List QuotaWindow
after i [] = []
after zero (w ∷ ws) = ws
after (suc i) (w ∷ ws) = after i ws

-- A window, with every other one in order: the windows before it reset sooner, and those after it
-- no later.
pub record IsSplit (windows : List QuotaWindow) (w : QuotaWindow) (rest : List QuotaWindow)
    : Type 0 where
  pub front : List QuotaWindow
  pub back : List QuotaWindow
  pub whole : windows ≡ front ++ w ∷ back
  pub left : rest ≡ front ++ back
  pub narrower : All (λ (v : QuotaWindow). period_rank v.period < period_rank w.period) front
  pub no_wider : All (λ (v : QuotaWindow). period_rank v.period ≤ period_rank w.period) back

without_past : (widest i : ℕ) (ws : List QuotaWindow) → widest < i → without widest i ws ≡ ws
unfolding without
without_past widest i [] h = refl
without_past widest i (w ∷ ws) h = ground (arith, without_past widest (suc i) ws)

shift : (j i : ℕ) → j + suc i ≡ suc j + i
shift j i = omega arith

without_at : (j i : ℕ) (ws : List QuotaWindow) → without (j + i) i ws ≡ take j ws ++ after j ws
unfolding without
without_at zero i [] = refl
without_at (suc j) i [] = refl
without_at zero i (w ∷ ws) = ground (arith, without_past i (suc i) ws)
without_at (suc j) i (w ∷ ws) =
    ground (arith, without_at j (suc i) ws, ap (λ k. without k (suc i) ws) (shift j i))

whole_at :
    (j : ℕ) (ws : List QuotaWindow) → j < length ws → ws ≡ take j ws ++ window_at ws j ∷ after j ws
unfolding window_at
whole_at j [] h = absurd (omega arith)
whole_at zero (w ∷ ws) h = refl
whole_at (suc j) (w ∷ ws) h = ap (λ l. w ∷ l) (whole_at j ws (omega arith))

module _ (P : QuotaWindow → Type 0) where
  All-take :
      (j : ℕ) (ws : List QuotaWindow) → ((m : ℕ) → m < j → P (window_at ws m)) → All P (take j ws)
  unfolding window_at
  All-take zero ws h = tt
  All-take (suc j) [] h = tt
  All-take (suc j) (w ∷ ws) h = (h 0 (omega arith), All-take j ws (λ m l. h (suc m) (omega arith)))

  All-rest : (ws : List QuotaWindow) → ((m : ℕ) → m < length ws → P (window_at ws m)) → All P ws
  unfolding window_at
  All-rest [] h = tt
  All-rest (w ∷ ws) h = (h 0 (omega arith), All-rest ws (λ m l. h (suc m) (omega arith)))

  All-after :
      (j : ℕ) (ws : List QuotaWindow)
      → ((m : ℕ) → m < length ws → P (window_at ws m))
      → All P (after j ws)
  unfolding window_at
  All-after j [] h = tt
  All-after zero (w ∷ ws) h = All-rest ws (λ m l. h (suc m) (omega arith))
  All-after (suc j) (w ∷ ws) h = All-after j ws (λ m l. h (suc m) (omega arith))

-- The first of the widest windows among the first `n`.
record IsFirst (windows : List QuotaWindow) (n j : ℕ) : Type 0 where
  bound : j < n
  before : (m : ℕ) → m < j → rank (window_at windows m) < rank (window_at windows j)
  upto : (m : ℕ) → m < n → rank (window_at windows m) ≤ rank (window_at windows j)

<-cases : (m i : ℕ) → m < suc i → (m < i) ⊎ (m ≡ i)
<-cases m i l = ground arith

ap_le :
    (windows : List QuotaWindow) (m j : ℕ)
    → m ≡ j
    → rank (window_at windows m) ≤ rank (window_at windows j)
ap_le windows m j q =
    subst (λ x. rank (window_at windows x) ≤ rank (window_at windows j)) (sym q) (omega arith)

upto_next :
    (windows : List QuotaWindow) (i j : ℕ)
    → ((m : ℕ) → m < i → rank (window_at windows m) ≤ rank (window_at windows j))
    → rank (window_at windows i) ≤ rank (window_at windows j)
    → (m : ℕ) → m < suc i
    → rank (window_at windows m) ≤ rank (window_at windows j)
upto_next windows i j h k m l = elim (<-cases m i l) [
  | inl q ↦ h m q
  | inr q ↦ subst (λ x. rank (window_at windows x) ≤ rank (window_at windows j)) (sym q) k
]

next-IsFirst :
    (windows : List QuotaWindow) (i widest : ℕ) (b : Bool)
    → ltb (rank (window_at windows widest)) (rank (window_at windows i)) ≡ b
    → IsFirst windows i widest
    → IsFirst windows (suc i) (if b then i else widest)
next-IsFirst windows i widest true e h = record {
  bound = omega arith;
  before = λ m l. ground (arith, h.upto m l);
  upto = upto_next windows i i (λ m l. ground (arith, h.upto m l)) (omega arith);
}
next-IsFirst windows i widest false e h = record {
  bound = ground (arith, h.bound);
  before = h.before;
  upto = upto_next windows i widest h.upto (ground arith);
}

widest_index-IsFirst :
    (windows ws : List QuotaWindow) (i widest : ℕ)
    → ((m : ℕ) → window_at windows (i + m) ≡ window_at ws m)
    → IsFirst windows i widest
    → IsFirst windows (i + length ws) (widest_index windows ws i widest)
unfolding widest_index window_at
widest_index-IsFirst windows [] i widest e h = subst (λ n. IsFirst windows n widest) (omega arith) h
widest_index-IsFirst windows (w ∷ ws) i widest e h =
    let b = ltb (rank (window_at windows widest)) (rank w) in
    let here : window_at windows i ≡ w = ap (window_at windows) (omega arith) ∙ e 0 in
    subst (λ n. IsFirst windows n (widest_index windows ws (suc i) (if b then i else widest)))
      (omega arith)
      (widest_index-IsFirst windows ws (suc i) (if b then i else widest)
        (λ m. ap (window_at windows) (omega arith) ∙ e (suc m))
        (next-IsFirst windows i widest b
          (ap (λ v. ltb (rank (window_at windows widest)) (rank v)) here) h))

one_more : (m : ℕ) → 1 + m ≡ suc m
one_more m = omega arith

no_shift : (j : ℕ) → j ≡ j + 0
no_shift j = omega arith

IsFirst-alone : (windows : List QuotaWindow) → IsFirst windows 1 0
IsFirst-alone windows = record {
  bound = omega arith;
  before = λ m l. absurd (omega arith);
  upto = λ m l. ap_le windows m 0 (omega arith);
}

-- `WidestWindow` splits off one of the windows with the longest period, the first of them, and
-- returns all others in their order, for every list with at least one window.
pub widest_window-IsSplit :
    (w : QuotaWindow) (ws : List QuotaWindow)
    → IsSplit (w ∷ ws) (widest_window (w ∷ ws)).0 (widest_window (w ∷ ws)).1
unfolding widest_window window_at
widest_window-IsSplit w ws =
    let j = widest_index (w ∷ ws) ws 1 0 in
    let first : IsFirst (w ∷ ws) (suc (length ws)) j =
      subst (λ n. IsFirst (w ∷ ws) n j) (omega arith)
        (widest_index-IsFirst (w ∷ ws) ws 1 0 (λ m. ap (window_at (w ∷ ws)) (one_more m))
          (IsFirst-alone (w ∷ ws))) in
    record {
      front = take j (w ∷ ws);
      back = after j (w ∷ ws);
      whole = whole_at j (w ∷ ws) first.bound;
      left = ap (λ k. without k 0 (w ∷ ws)) (no_shift j) ∙ without_at j 0 (w ∷ ws);
      narrower = All-take _ j (w ∷ ws) first.before;
      no_wider = All-after _ j (w ∷ ws) first.upto;
    }
