-- ===== src/Handlers/Quotas/Largest.antt =====
-- internal/handlers/ui.go: the percentages of the dashboard, and the window that is shown first.
use ai_self_service.Prelude.{
  ℕ, ℤ, pos, negsuc, ◌≤ℤ◌, ◌<ℤ◌, ltb_ℤ, ◌++◌, append_nil, append_assoc, inl, inr, String, Bool,
  true, false, Option, none, some, List, [], ◌∷◌, All, ◌≡◌, refl, sym, ap, subst, arith,
  if◌then◌else◌, Bool-cases,
}
use ai_self_service.Keyprovider.{le_zero}
use ai_self_service.Handlers.Quotas.{
  UsageWindow, QuotaView, Ratio, clamp, quota_pct, view_of, prepend, views, or_nothing,
  quota_windows, fuller, bind_from, binding_window,
}

-- A bar that can be drawn.
pub record IsBar (v : QuotaView) : Type 0 where
  pub pct_ge : pos 0 ≤ℤ v.pct
  pub pct_le : v.pct ≤ℤ pos 100
  pub limited : le_zero v.limit ≡ false

clamp_lem : (pct : ℤ) → (pos 0 ≤ℤ clamp pct) × (clamp pct ≤ℤ pos 100)
unfolding clamp
clamp_lem (pos n) = (ground arith, ground arith)
clamp_lem (negsuc n) = (ground arith, ground arith)

quota_pct_lem :
    (ratio : Ratio) (used limit : ℕ)
    → (pos 0 ≤ℤ quota_pct ratio used limit) × (quota_pct ratio used limit ≤ℤ pos 100)
unfolding quota_pct
quota_pct_lem ratio used limit =
    either (le_zero limit) (pos 0) (clamp (ratio used limit)) (omega arith, omega arith)
      (clamp_lem (ratio used limit))
  where
    either :
        (b : Bool) (x y : ℤ)
        → (pos 0 ≤ℤ x) × (x ≤ℤ pos 100)
        → (pos 0 ≤ℤ y) × (y ≤ℤ pos 100)
        → (pos 0 ≤ℤ (if b then x else y)) × ((if b then x else y) ≤ℤ pos 100)
    either true x y h k = h
    either false x y h k = k

prepend-bars :
    (v : QuotaView) (o : Option (List QuotaView))
    → IsBar v
    → All IsBar (or_nothing o)
    → All IsBar (or_nothing (prepend v o))
prepend-bars v none b h = tt
prepend-bars v (some vs) b h = (b, h)

chosen :
    (zero known : Bool) (v : QuotaView) (rest : Option (List QuotaView))
    → (zero ≡ false → IsBar v)
    → All IsBar (or_nothing rest)
    → All IsBar (or_nothing (if zero then rest else if known then prepend v rest else none))
chosen true known v rest b h = h
chosen false true v rest b h = prepend-bars v rest (b refl) h
chosen false false v rest b h = tt

-- Every bar of the dashboard is between empty and full, and is of a window with a limit that is not zero or less, whatever
-- the division of the two amounts comes to.
pub quota_windows-Bounded :
    (ratio : Ratio) (label : String → String) (ws : List UsageWindow)
    → All IsBar (quota_windows ratio label ws)
unfolding quota_windows views view_of
quota_windows-Bounded ratio label [] = tt
quota_windows-Bounded ratio label (w ∷ ws) =
    chosen (le_zero w.limit) w.used_known (view_of ratio label w) (views ratio label ws)
      (λ h. record {
        pct_ge = (quota_pct_lem ratio w.used w.limit).0;
        pct_le = (quota_pct_lem ratio w.used w.limit).1;
        limited = h;
      })
      (quota_windows-Bounded ratio label ws)

-- The first of the fullest windows: all before it are less full, and none after it is fuller.
pub record IsFullest (vs : List QuotaView) (b : QuotaView) : Type 0 where
  pub front : List QuotaView
  pub back : List QuotaView
  pub stands : vs ≡ front ++ b ∷ back
  pub before : All (λ (v : QuotaView). v.pct <ℤ b.pct) front
  pub after : All (λ (v : QuotaView). v.pct ≤ℤ b.pct) back

some_is : (a b : QuotaView) → (let o : Option QuotaView = some a in o) ≡ some b → a ≡ b
some_is a b e = ground arith

less_still :
    (back : List QuotaView) (b v : QuotaView)
    → All (λ (x : QuotaView). x.pct ≤ℤ b.pct) back
    → b.pct <ℤ v.pct
    → All (λ (x : QuotaView). x.pct <ℤ v.pct) back
less_still [] b v k l = tt
less_still (x ∷ back) b v (p, k) l = (omega arith, less_still back b v k l)

overtaken :
    (front back : List QuotaView) (b v : QuotaView)
    → All (λ (x : QuotaView). x.pct <ℤ b.pct) front
    → All (λ (x : QuotaView). x.pct ≤ℤ b.pct) back
    → b.pct <ℤ v.pct
    → All (λ (x : QuotaView). x.pct <ℤ v.pct) (front ++ b ∷ back)
overtaken [] back b v h k l = (l, less_still back b v k l)
overtaken (x ∷ front) back b v (p, h) k l = (omega arith, overtaken front back b v h k l)

stays :
    (back : List QuotaView) (b v : QuotaView)
    → All (λ (x : QuotaView). x.pct ≤ℤ b.pct) back
    → v.pct ≤ℤ b.pct
    → All (λ (x : QuotaView). x.pct ≤ℤ b.pct) (back ++ v ∷ [])
stays [] b v k l = (l, tt)
stays (x ∷ back) b v (p, k) l = (p, stays back b v k l)

-- The windows so far, and the fullest of them.
bind_lem :
    (vs front back : List QuotaView) (b r : QuotaView)
    → All (λ (v : QuotaView). v.pct <ℤ b.pct) front
    → All (λ (v : QuotaView). v.pct ≤ℤ b.pct) back
    → bind_from (some b) vs ≡ some r
    → IsFullest (front ++ b ∷ (back ++ vs)) r
unfolding bind_from fuller
bind_lem [] front back b r h k e =
    subst (IsFullest (front ++ b ∷ (back ++ []))) (some_is b r e) (record {
      front = front;
      back = back;
      stands = ap (λ l. front ++ b ∷ l) (append_nil back);
      before = h;
      after = k;
    })
bind_lem (v ∷ vs) front back b r h k e =
    let next = λ (t : Bool). bind_from (if t then some v else some b) vs ≡ some r in
    elim (Bool-cases (ltb_ℤ b.pct v.pct)) [
      | inl q ↦
          subst (λ l. IsFullest l r) (append_assoc front (b ∷ back) (v ∷ vs))
            (bind_lem vs (front ++ b ∷ back) [] v r (overtaken front back b v h k (ground arith)) tt
              (subst next q e))
      | inr q ↦
          subst (λ l. IsFullest (front ++ b ∷ l) r) (append_assoc back (v ∷ []) vs)
            (bind_lem vs front (back ++ v ∷ []) b r h (stays back b v k (ground arith))
              (subst next q e))
    ]

bind_some :
    (vs : List QuotaView) (b : QuotaView) → (r : QuotaView) × (bind_from (some b) vs ≡ some r)
unfolding bind_from fuller
bind_some [] b = (b, refl)
bind_some (v ∷ vs) b =
    let goal =
      λ (t : Bool). (r : QuotaView) × (bind_from (if t then some v else some b) vs ≡ some r) in
    elim (Bool-cases (ltb_ℤ b.pct v.pct)) [
      | inl q ↦ subst goal (sym q) (bind_some vs v)
      | inr q ↦ subst goal (sym q) (bind_some vs b)
    ]

-- The window that the dashboard shows first is the first of the fullest ones; there is one whenever
-- there is any window.
pub binding_window-IsFullest :
    (v : QuotaView) (vs : List QuotaView)
    → (r : QuotaView) × (binding_window (v ∷ vs) ≡ some r) × IsFullest (v ∷ vs) r
unfolding binding_window bind_from fuller
binding_window-IsFullest v vs =
    let r = bind_some vs v in (r.0, r.1, bind_lem vs [] [] v r.0 tt tt r.1)
