-- ===== src/Data/Freshness/Fresh.antt =====
-- When the whole summary is a success.
use qmt_trading.Base.{
  ℕ, ◌≡◌, refl, ◌↔◌, Bool, true, false, not, Option, none, some, List, [], ◌∷◌, map, All, keep,
  length, ltb, arith, if◌then◌else◌,
}
use qmt_trading.Base.Int.{ℤ}
use qmt_trading.Text.{Text, text_lt}
use qmt_trading.Float.{Float}
use qmt_trading.Data.Freshness.{
  CoverageRecord, Freshness, fresh, Probe, Item, latest_date, is_covered, is_behind, by_day,
  if_required, build_freshness_item, freshness_status_counts, Overall, success, warning, failed,
  is_unknown,
}

-- A record that is not older than the target day, and no check of its coverage that found gaps.
abbrev pub IsUpToDate : {R : Type 0} → Probe R → Type 0
IsUpToDate p =
    (elim (latest_date p.latest_time) [ none ↦ false | some day ↦ not (text_lt day p.target_date) ]
      ≡ true)
    × (elim p.coverage [ none ↦ true | some c ↦ is_covered c.status ] ≡ true)

abbrev verdict : ℕ → ℕ → Overall
verdict stale_count warning_count =
    if ltb 0 stale_count then failed else if ltb 0 warning_count then warning else success

none_late :
    {R : Type 0} (items : List (Item R))
    → (length (keep (λ (i : Item R). is_behind i.status) items) ≡ 0)
      × (length (keep (λ (i : Item R). is_unknown i.status) items) ≡ 0)
    → All (λ (i : Item R). i.status ≡ fresh) items
none_late [] h = tt
none_late (i ∷ is) h = ground (arith, none_late is)

all_fresh :
    {R : Type 0} (items : List (Item R))
    → All (λ (i : Item R). i.status ≡ fresh) items
    → (length (keep (λ (i : Item R). is_behind i.status) items) ≡ 0)
      × (length (keep (λ (i : Item R). is_unknown i.status) items) ≡ 0)
all_fresh [] h = (refl, refl)
all_fresh (i ∷ is) (now, later) = rw now (all_fresh is later)

verdict_iff : (a b : ℕ) → (verdict a b ≡ success) ↔ ((a ≡ 0) × (b ≡ 0))
verdict_iff a b = ground arith

success_iff :
    {R : Type 0} (items : List (Item R))
    → ((freshness_status_counts items).2 ≡ success) ↔ All (λ (i : Item R). i.status ≡ fresh) items
unfolding freshness_status_counts
success_iff items =
    (λ h. none_late items ((verdict_iff _ _).0 h), λ h. (verdict_iff _ _).1 (all_fresh items h))

by_day_iff :
    {R : Type 0} (target : Text) (coverage : Option (CoverageRecord R)) (day : Option Text)
    → (by_day target coverage day ≡ fresh) ↔ (
        (elim day [ none ↦ false | some d ↦ not (text_lt d target) ] ≡ true)
        × (elim coverage [ none ↦ true | some c ↦ is_covered c.status ] ≡ true))
by_day_iff target coverage none = ground arith
by_day_iff target none (some d) = ground arith
by_day_iff target (some c) (some d) = ground arith

if_required-fresh : (b : Bool) (s : Freshness) → (if_required b s ≡ fresh) ↔ (s ≡ fresh)
if_required-fresh true s = (λ h. h, λ h. h)
if_required-fresh false s = ground arith

build-fresh :
    {R : Type 0} ⦃F : Float R⦄ (days_between : Text → Text → Option ℤ) (p : Probe R)
    → ((build_freshness_item days_between p).status ≡ fresh) ↔ IsUpToDate p
unfolding build_freshness_item
build-fresh days_between p =
    let (to, from) = by_day_iff p.target_date p.coverage (latest_date p.latest_time) in
    let (forget, demand) =
      if_required-fresh p.required (by_day p.target_date p.coverage (latest_date p.latest_time)) in
    (λ h. to (forget h), λ h. demand (from h))

All-build :
    {R : Type 0} ⦃F : Float R⦄ (days_between : Text → Text → Option ℤ) (probes : List (Probe R))
    → All (λ (i : Item R). i.status ≡ fresh) (map (build_freshness_item days_between) probes)
      ↔ All IsUpToDate probes
All-build days_between [] = (λ h. tt, λ h. tt)
All-build days_between (p ∷ ps) =
    let (to, from) = build-fresh days_between p in
    let (later, back) = All-build days_between ps in
    (λ h. (to h.0, later h.1), λ h. (from h.0, back h.1))

-- The summary of the items that are built from the records of the tables is a success just when each
-- table, also one that is not required, has a record that is not older than the target day and no
-- coverage check of it found gaps.
pub freshness-success :
    {R : Type 0} ⦃F : Float R⦄ (days_between : Text → Text → Option ℤ) (probes : List (Probe R))
    → ((freshness_status_counts (map (build_freshness_item days_between) probes)).2 ≡ success)
      ↔ All IsUpToDate probes
freshness-success days_between probes =
    let (to, from) = success_iff (map (build_freshness_item days_between) probes) in
    let (later, back) = All-build days_between probes in (λ h. later (to h), λ h. from (back h))
