-- ===== src/Calendar/Generated.antt =====
-- What `generate_calendar` of app/agents/_calendar.py lays out.
use marketing_agentic_system.Common.{
  ℕ, zero, suc, ◌+◌, ◌≤◌, ◌≡◌, refl, sym, subst, String, false, List, [], ◌∷◌, ◌++◌, arith, inl,
  inr, Bool-cases, ◌==◌, length, Row, first, later, All, All-map, Row-append, if-true, if-false,
}
use marketing_agentic_system.Common.Text.{clean}
use marketing_agentic_system.Data.{Error, Result, ok, err}
use marketing_agentic_system.EmailDispatch.Footer.{is_empty}
use marketing_agentic_system.Calendar.{PlannedTouchpoint, HardCap, Violation, enforce_hard_caps}
use marketing_agentic_system.Calendar.Caps.{RespectsAll, enforce_hard_caps_iff}
use marketing_agentic_system.Calendar.Generation.{
  ChannelEntry, other, channel, Share, touch_count, distribute_from, days_between, distribute,
  channel_touches, lay_out, comes_first, insert_touch, sort_touches, unless_violated,
  generate_calendar,
}
use marketing_agentic_system.Calendar.Spread.{InSpan, lay_out-InSpan}

insert_touch-All {κ} :
    (P : PlannedTouchpoint → Type κ) (t : PlannedTouchpoint) (l : List PlannedTouchpoint)
    → P t
    → All P l
    → All P (insert_touch t l)
unfolding insert_touch
insert_touch-All P t [] h k = (h, tt)
insert_touch-All P t (u ∷ rest) h k = elim (Bool-cases (comes_first t u)) [
  | inl e ↦ subst (All P) (sym (if-true _ _ e)) (h, k)
  | inr e ↦ subst (All P) (sym (if-false _ _ e)) (k.0, insert_touch-All P t rest h k.1)
]

sort_touches-All {κ} :
    (P : PlannedTouchpoint → Type κ) (l : List PlannedTouchpoint) → All P l → All P (sort_touches l)
unfolding sort_touches
sort_touches-All P [] h = tt
sort_touches-All P (t ∷ rest) h =
    insert_touch-All P t (sort_touches rest) h.0 (sort_touches-All P rest h.1)

insert_touch-own : (t : PlannedTouchpoint) (l : List PlannedTouchpoint) → Row t (insert_touch t l)
unfolding insert_touch
insert_touch-own t [] = first refl
insert_touch-own t (u ∷ rest) = elim (Bool-cases (comes_first t u)) [
  | inl e ↦ subst (Row t) (sym (if-true _ _ e)) (first refl)
  | inr e ↦ subst (Row t) (sym (if-false _ _ e)) (later (insert_touch-own t rest))
]

insert_touch-kept :
    (t x : PlannedTouchpoint) (l : List PlannedTouchpoint) → Row x l → Row x (insert_touch t l)
unfolding insert_touch
insert_touch-kept t x [] r = elim r [ ]
insert_touch-kept t x (u ∷ rest) (first q) = elim (Bool-cases (comes_first t u)) [
  | inl e ↦ subst (Row x) (sym (if-true _ _ e)) (later (first q))
  | inr e ↦ subst (Row x) (sym (if-false _ _ e)) (first q)
]
insert_touch-kept t x (u ∷ rest) (later r) = elim (Bool-cases (comes_first t u)) [
  | inl e ↦ subst (Row x) (sym (if-true _ _ e)) (later (later r))
  | inr e ↦ subst (Row x) (sym (if-false _ _ e)) (later (insert_touch-kept t x rest r))
]

sort_touches-Row :
    (x : PlannedTouchpoint) (l : List PlannedTouchpoint) → Row x l → Row x (sort_touches l)
unfolding sort_touches
sort_touches-Row x [] r = elim r [ ]
sort_touches-Row x (t ∷ rest) (first e) = rw e (insert_touch-own t (sort_touches rest))
sort_touches-Row x (t ∷ rest) (later r) =
    insert_touch-kept t x (sort_touches rest) (sort_touches-Row x rest r)

-- The platform has a touch.
abbrev pub IsServed : String → List PlannedTouchpoint → Type 0
IsServed platform l = (t : PlannedTouchpoint) × Row t l × (t.channel_platform ≡ platform)

-- An entry with a platform and a positive allocation has a touch.
abbrev pub IsServedEntry : List PlannedTouchpoint → ChannelEntry → Type 0
IsServedEntry l other = Unit
IsServedEntry l (channel platform pct) =
    is_empty (clean platform) ≡ false → 1 ≤ pct → IsServed (clean platform) l

distribute_from-IsServed :
    (start_date d count : ℕ) (platform : String) (audience_id position i left : ℕ)
    → 1 ≤ left
    → IsServed platform (distribute_from start_date d count platform audience_id position i left)
unfolding distribute_from
distribute_from-IsServed start_date d count platform audience_id position i zero h =
    absurd (omega arith)
distribute_from-IsServed start_date d count platform audience_id position i (suc left) h =
    (_, first refl, refl)

Row-append_right :
    {x : PlannedTouchpoint} (xs : List PlannedTouchpoint) {ys : List PlannedTouchpoint}
    → Row x ys
    → Row x (xs ++ ys)
Row-append_right [] r = r
Row-append_right (y ∷ xs) r = later (Row-append_right xs r)

IsServedEntry-map :
    (l m : List PlannedTouchpoint) (ch : ChannelEntry)
    → ((t : PlannedTouchpoint) → Row t l → Row t m)
    → IsServedEntry l ch
    → IsServedEntry m ch
IsServedEntry-map l m other k h = tt
IsServedEntry-map l m (channel platform pct) k h = λ e p. let (t, r, q) = h e p in (t, k t r, q)

module _ (share : Share) (caps : List HardCap) (start_date end_date audience_id : ℕ) where
  touch_count-positive :
      (d : ℕ) (platform : String) (pct : ℕ) → 1 ≤ touch_count share caps d platform pct
  unfolding touch_count
  touch_count-positive d platform pct = omega arith

  channel_touches-IsServedEntry :
      (ch : ChannelEntry) (position : ℕ)
      → IsServedEntry (channel_touches share caps start_date end_date audience_id ch position) ch
  unfolding channel_touches distribute
  channel_touches-IsServedEntry other position = tt
  channel_touches-IsServedEntry (channel platform pct) position = λ e p.
      let count = touch_count share caps (days_between start_date end_date) (clean platform) pct in
      let n : (pct == 0) ≡ false = ground (arith, p) in
      rw (e, n)
        (distribute_from-IsServed start_date (days_between start_date end_date) count
          (clean platform) audience_id position 0 count
          (touch_count-positive (days_between start_date end_date) (clean platform) pct))

  lay_out-IsServedEntry :
      (channels : List ChannelEntry) (position : ℕ)
      → All
          (IsServedEntry (lay_out share caps start_date end_date audience_id channels position))
          channels
  unfolding lay_out
  lay_out-IsServedEntry [] position = tt
  lay_out-IsServedEntry (ch ∷ rest) position =
      let touches = channel_touches share caps start_date end_date audience_id ch position in
      let more =
        lay_out share caps start_date end_date audience_id rest (position + length touches) in
      (
        IsServedEntry-map touches (touches ++ more) ch (λ t r. Row-append more r)
            (channel_touches-IsServedEntry ch position),
        All-map (IsServedEntry more) (IsServedEntry (touches ++ more)) rest
            (λ c h.
              IsServedEntry-map more (touches ++ more) c (λ t r. Row-append_right touches r) h)
            (lay_out-IsServedEntry rest (position + length touches)),
      )

-- A calendar that was laid out.
pub record LaidOut (channels : List ChannelEntry) (start_date end_date : ℕ) (caps : List HardCap)
    (out : List PlannedTouchpoint) : Type 0 where
  pub respects : RespectsAll out caps
  pub in_span : All (InSpan start_date end_date) out
  pub served : All (IsServedEntry out) channels

pub data Generated (share : Share) (channels : List ChannelEntry)
    (start_date end_date audience_id : ℕ) (caps : List HardCap)
    : Result (List PlannedTouchpoint) → Type 0 where
  infeasible :
      {e : Error}
      → ¬ RespectsAll
          (sort_touches (lay_out share caps start_date end_date audience_id channels 0))
          caps
      → Generated share channels start_date end_date audience_id caps (err e)
  laid_out :
      {out : List PlannedTouchpoint}
      → LaidOut channels start_date end_date caps out
      → Generated share channels start_date end_date audience_id caps (ok out)

unless_violated-Generated :
    (share : Share) (channels : List ChannelEntry) (start_date end_date audience_id : ℕ)
    (caps : List HardCap) (v : List Violation)
    → let out = sort_touches (lay_out share caps start_date end_date audience_id channels 0) in
      enforce_hard_caps out caps ≡ v
      → Generated share channels start_date end_date audience_id caps (unless_violated out v)
unfolding unless_violated
unless_violated-Generated share channels start_date end_date audience_id caps (v ∷ rest) h =
    infeasible (λ r. cc (h, (enforce_hard_caps_iff _ caps).1 r))
unless_violated-Generated share channels start_date end_date audience_id caps [] h =
    let out = lay_out share caps start_date end_date audience_id channels 0 in
    laid_out (record {
      respects = (enforce_hard_caps_iff (sort_touches out) caps).0 h;
      in_span =
          sort_touches-All (InSpan start_date end_date) out
            (lay_out-InSpan share caps start_date end_date audience_id channels 0);
      served =
          All-map (IsServedEntry out) (IsServedEntry (sort_touches out)) channels
            (λ c k. IsServedEntry-map out (sort_touches out) c (λ t r. sort_touches-Row t out r) k)
            (lay_out-IsServedEntry share caps start_date end_date audience_id channels 0);
    })

-- Whatever the share of touches, a calendar is either returned or refused. A returned one respects every
-- cap that can be enforced, all its touches are at nine o'clock of a day from the start to the end, and
-- every channel with a platform and a positive allocation has a touch. It is refused only if the touches
-- that were laid out break a cap.
pub generate_calendar-Generated :
    (share : Share) (channels : List ChannelEntry) (start_date end_date audience_id : ℕ)
    (caps : List HardCap)
    → Generated share channels start_date end_date audience_id caps
        (generate_calendar share channels start_date end_date audience_id caps)
unfolding generate_calendar
generate_calendar-Generated share channels start_date end_date audience_id caps =
    unless_violated-Generated share channels start_date end_date audience_id caps _ refl
