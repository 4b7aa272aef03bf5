-- ===== src/Growth/Window/Hysteresis.antt =====
-- When a capacity shrinks, and to what.
use orgmodule_services.Common.{
  suc, min, length, ℕ, ◌+◌, ◌*◌, ◌≤◌, ◌<◌, ◌≡◌, refl, inl, inr, true, false, not, Result, ok, err,
  >>=-inversion, ltb, leb, ◌==◌, if◌then◌else◌, u64_mod, u32_max, max, Option, none, some, List, [],
  ◌∷◌, arith, Bool-cases, sym, subst, ap,
}
use orgmodule_services.Growth.Policy.{GrowthPolicy, next, next_as, fit_type}
use orgmodule_services.Growth.Policy.Bounds.{next-ge}
use orgmodule_services.Growth.Window.{
  ShrinkPolicy, ShrinkWindow, shrinks, reset, due, is_low, enter, close, observe, Fitted,
  fit_capacity, fit_grown, fit_observed,
}

-- Low asks, each with its time, enter one after another.
abbrev pub enter_all : ShrinkWindow → List (ℕ × ℕ) → ShrinkWindow
unfolding enter
enter_all window [] = window
enter_all window (ask ∷ asks) = enter_all (enter window ask.0 ask.1) asks

abbrev pub highest : ℕ → List (ℕ × ℕ) → ℕ
highest peak [] = peak
highest peak (ask ∷ asks) = highest (max peak ask.0) asks

opened : ShrinkWindow → List (ℕ × ℕ) → ShrinkWindow
opened window asks = record {
  peak = highest window.peak asks;
  seen = min (window.seen + length asks) u32_max;
  since = window.since;
}

enter_open :
    (asks : List (ℕ × ℕ)) (window : ShrinkWindow)
    → 0 < window.seen
    → window.seen ≤ u32_max
    → enter_all window asks ≡ opened window asks
unfolding enter opened
enter_open [] window o m = ground arith
enter_open (ask ∷ asks) window o m =
    let step : (enter window ask.0 ask.1).peak ≡ max window.peak ask.0 = ground arith in
    ground (arith, enter_open asks (enter window ask.0 ask.1), ap (λ k. highest k asks) step)

-- A closed window that low asks enter one after another holds the most asked, the number of asks up
-- to the largest 32-bit number, and the time of the first.
pub enter-run :
    (window : ShrinkWindow) (need now : ℕ) (asks : List (ℕ × ℕ))
    → window.seen ≡ 0
    → enter_all window ((need, now) ∷ asks)
      ≡ record { peak = highest need asks; seen = min (suc (length asks)) u32_max; since = now }
unfolding enter opened
enter-run window need now asks z =
    ground (arith, z, enter_open asks (record { peak = need; seen = 1; since = now }))

enter-peak :
    (window : ShrinkWindow) (need now : ℕ)
    → (need ≤ (enter window need now).peak)
      × (window.peak < u64_mod → need < u64_mod → (enter window need now).peak < u64_mod)
unfolding enter
enter-peak window need now = (ground arith, λ p n. ground arith)

-- For a shrinking policy, a nonzero capacity and an open window whose count is not yet the largest
-- 32-bit number, a low ask of at most the peak closes the window exactly where `Due` says so, and
-- is only counted otherwise.
pub due-observe :
    (policy : ShrinkPolicy) (growth : GrowthPolicy) (capacity need now : ℕ) (window : ShrinkWindow)
    → shrinks policy ≡ true
    → 0 < capacity
    → 0 < window.seen
    → window.seen < u32_max
    → need ≤ window.peak
    → is_low policy capacity need ≡ true
    → observe policy growth capacity need now window ≡ (
        if due policy window now
        then close growth capacity (record window { seen = window.seen + 1 })
        else ok (record window { seen = window.seen + 1 }, none))
unfolding observe due enter
due-observe policy growth capacity need now window s c o m n low = ground (arith, s, low)

ok-same : (x y : ShrinkWindow × Option ℕ) → ok x ≡ ok y → x ≡ y
ok-same x y h = ap (λ (r : Result (ShrinkWindow × Option ℕ)). elim r [ ok z ↦ z | err e ↦ x ]) h

-- A window that closes below the capacity does so at a target that holds its peak.
close-target :
    (growth : GrowthPolicy) (capacity target : ℕ) (window after : ShrinkWindow)
    → window.peak < u64_mod
    → close growth capacity window ≡ ok (after, some target)
    → (target < capacity) × (window.peak ≤ target) × (after.seen ≡ 0)
unfolding close
close-target growth capacity target window after p h =
    let (a, e, e') =
      >>=-inversion (λ x. ok (reset window, if leb capacity x then none else some x))
        (after, some target) sized (sym h) in
    let same : ◌≡◌ {A = ShrinkWindow × Option ℕ} (after, some target)
        (reset window, if leb capacity a then none else some a) =
      ok-same (after, some target) (reset window, if leb capacity a then none else some a) e' in
    let found : some target ≡ (if leb capacity a then none else some a) =
      ap (λ (x : ShrinkWindow × Option ℕ). x.1) same in
    let enough : window.peak ≤ a = ground (arith, e, next-ge growth 0 window.peak a p) in
    let hit : (leb capacity a ≡ false) × (a ≡ target) = ground (arith, found) in
    (
      ground (arith, hit),
      ground (arith, hit, enough),
      ap (λ (x : ShrinkWindow × Option ℕ). x.0.seen) same,
    )
  where
    sized : Result ℕ
    sized = if window.peak == 0 then ok 0 else next growth 0 window.peak

-- Where `Observe` returns a target, for a 64-bit need and peak: the target is below the capacity and
-- at least the ask; the ask was low; the window with it had the observations and the settle time
-- that the policy wants; and the window is closed again.
pub observe-shrinks :
    (policy : ShrinkPolicy) (growth : GrowthPolicy) (capacity need now : ℕ)
    (window after : ShrinkWindow) (target : ℕ)
    → need < u64_mod
    → window.peak < u64_mod
    → observe policy growth capacity need now window ≡ ok (after, some target)
    → (target < capacity)
      × (need ≤ target)
      × (is_low policy capacity need ≡ true)
      × (policy.observations ≤ (enter window need now).seen)
      × ((enter window need now).since + policy.settle * 1000000 ≤ now)
      × (after.seen ≡ 0)
unfolding observe close
observe-shrinks policy growth capacity need now window after target n p h =
    let (raised, small) = enter-peak window need now in
    ground (
      arith,
      h,
      raised,
      close-target growth capacity target (enter window need now) after (small p n),
    )

-- What a caller of `FitCapacity` may rely on.
abbrev pub IsFitted : ℕ → ℕ → ℕ → Fitted → Type 0
IsFitted type_max current need f =
    (need ≤ f.value) × (f.value ≤ type_max) × (f.moved ≡ not (f.value == current))

fitted-same : (f g : Fitted) → ok f ≡ ok g → g ≡ f
fitted-same f g h = ap (λ (r : Result Fitted). elim r [ ok z ↦ z | err e ↦ f ]) (sym h)

fit_grown-IsFitted :
    (type_max : ℕ) (growth : GrowthPolicy) (current need value : ℕ) (window : ShrinkWindow)
    → need < u64_mod
    → next_as type_max growth current need ≡ ok value
    → IsFitted type_max current need (fit_grown current window value)
unfolding next_as
fit_grown-IsFitted type_max growth current need value window n h =
    let (a, e, e') = >>=-inversion (fit_type type_max) value (next growth current need) (sym h) in
    let enough : need ≤ a = next-ge growth current need a n e in
    (ground (arith, e', enough), ground (arith, e'), refl)

fit_observed-IsFitted :
    (type_max : ℕ) (growth : GrowthPolicy) (shrink : ShrinkPolicy) (current need now : ℕ)
    (window after : ShrinkWindow) (o : Option ℕ)
    → need ≤ current
    → need < u64_mod
    → window.peak < u64_mod
    → current ≤ type_max
    → observe shrink growth current need now window ≡ ok (after, o)
    → IsFitted type_max current need (fit_observed current (after, o))
fit_observed-IsFitted type_max growth shrink current need now window after none le n p c h =
    (le, c, ground arith)
fit_observed-IsFitted type_max growth shrink current need now window after (some target) le n p c
      h =
    ground (arith, observe-shrinks shrink growth current need now window after target n p h)

-- Where `FitCapacity` returns, for a 64-bit need and peak and a capacity that fits its type: the new
-- capacity holds the need and fits the type, and a move is reported exactly where the capacity
-- changed.
pub fit_capacity_lem :
    (type_max : ℕ) (growth : GrowthPolicy) (shrink : ShrinkPolicy) (current need now : ℕ)
    (window : ShrinkWindow) (f : Fitted)
    → need < u64_mod
    → window.peak < u64_mod
    → current ≤ type_max
    → fit_capacity type_max growth shrink current need now window ≡ ok f
    → IsFitted type_max current need f
unfolding fit_capacity
fit_capacity_lem type_max growth shrink current need now window f n p c h =
    elim (Bool-cases (ltb current need)) [
      | inl less ↦
          let (value, e, e') =
            >>=-inversion (λ x. ok (fit_grown current window x)) f
              (next_as type_max growth current need) (sym (rw (less, fit_capacity) at h)) in
          subst (IsFitted type_max current need) (fitted-same f (fit_grown current window value) e')
            (fit_grown-IsFitted type_max growth current need value window n e)
      | inr more ↦
          let (seen, e, e') =
            >>=-inversion (λ x. ok (fit_observed current x)) f
              (observe shrink growth current need now window)
              (sym (rw (more, fit_capacity) at h)) in
          subst (IsFitted type_max current need) (fitted-same f (fit_observed current seen) e') (
            fit_observed-IsFitted type_max growth shrink current need now window seen.0 seen.1
              (ground arith) n p c e)
    ]
