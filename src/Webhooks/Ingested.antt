-- ===== src/Webhooks/Ingested.antt =====
-- What the loop of `dispatch_webhook` (app/webhooks/dispatcher.py) does to the events.
use marketing_agentic_system.Common.{
  ℕ, ◌+◌, ◌≡◌, refl, ap, ◌∙◌, String, Bool, true, false, ◌&&◌, Option, none, some, List, [], ◌∷◌,
  ◌++◌, arith, inl, inr, Bool-cases, Option-cases, ==_iff, ◌==◌, str_eq, str_eq_iff, if◌then◌else◌,
  is_some, length, count_where, Row, All, All-map, Pairs, Pairs-append_one, Row-append, Row-last,
  any_where, any_where-false, any_where-true, any_where-of_Row,
}
use marketing_agentic_system.Webhooks.{
  EventKind, MappedEvent, AnalyticEvent, coerce_event_kind, ParseIso, parse_iso_or_now, is_event_of,
  Ingest, insert_event, ingest_one, ingest,
}

-- The event's type is one of the known kinds.
abbrev pub is_recognised : MappedEvent → Bool
is_recognised evt = is_some (coerce_event_kind evt.event_type)

abbrev pub recognised : List MappedEvent → ℕ
recognised l = count_where is_recognised l

-- The event has a row.
abbrev pub IsStored : ℕ → List AnalyticEvent → MappedEvent → Type 0
IsStored tenant events evt =
    is_recognised evt ≡ true → any_where (is_event_of tenant evt.provider_event_id) events ≡ true

-- Rows with the same tenant and provider_event_id.
abbrev pub same_event : AnalyticEvent → AnalyticEvent → Bool
same_event a b = elim a.provider_event_id [ none ↦ false | some i ↦ is_event_of a.tenant_id i b ]

-- The partial unique index.
abbrev pub HasUniqueEvents : List AnalyticEvent → Type 0
HasUniqueEvents = Pairs (λ (a b : AnalyticEvent). same_event a b ≡ false)

pub record Ingested (tenant : ℕ) (l : List MappedEvent) (s s' : Ingest) : Type 0 where
  pub kept : (e : AnalyticEvent) → Row e s.events → Row e s'.events
  pub grown : length s'.events + s.events_written ≡ length s.events + s'.events_written
  pub counted :
      s'.events_written + s'.events_deduped ≡ s.events_written + s.events_deduped + recognised l
  pub stored : All (IsStored tenant s'.events) l
  pub unique : HasUniqueEvents s.events → HasUniqueEvents s'.events

any_where-kept :
    (p : AnalyticEvent → Bool) (xs ys : List AnalyticEvent)
    → ((e : AnalyticEvent) → Row e xs → Row e ys)
    → any_where p xs ≡ true
    → any_where p ys ≡ true
any_where-kept p xs ys k h =
    let (e, r, t) = any_where-true p xs h in any_where-of_Row p ys (k e r) t

length-append_one :
    (xs : List AnalyticEvent) (x : AnalyticEvent) → length (xs ++ (x ∷ [])) ≡ length xs + 1
length-append_one [] x = refl
length-append_one (y ∷ ys) x = let ih = length-append_one ys x in omega (arith, ih)

same_event_sym :
    (tenant : ℕ) (i : String) (a b : AnalyticEvent)
    → b.tenant_id ≡ tenant
    → b.provider_event_id ≡ some i
    → is_event_of tenant i a ≡ false
    → same_event a b ≡ false
unfolding is_event_of
same_event_sym tenant i a b t e h = elim (Option-cases a.provider_event_id) [
  | inl n ↦ rw n refl
  | inr (j, m) ↦
      let f = str_eq_iff j i in
      let g = str_eq_iff i j in
      let k : ((a.tenant_id == tenant) && str_eq j i) ≡ false = rw m at h in
      rw (m, e, t) (flipped a.tenant_id tenant i j k)
]
  where
    flipped :
        (m n : ℕ) (i j : String)
        → ((m == n) && str_eq j i) ≡ false
        → ((n == m) && str_eq i j) ≡ false
    flipped m n i j h = ground (arith, str_eq_iff j i, str_eq_iff i j)

own_event :
    (tenant : ℕ) (i : String) (b : AnalyticEvent)
    → b.tenant_id ≡ tenant
    → b.provider_event_id ≡ some i
    → is_event_of tenant i b ≡ true
unfolding is_event_of
own_event tenant i b t e =
    let same = (str_eq_iff i i).1 refl in
    let own = (==_iff b.tenant_id tenant).1 t in rw (e, own, same) refl

module _ (parse_iso : ParseIso) (now tenant : ℕ) where
  insert_event-Ingested :
      (evt : MappedEvent) (kind : EventKind) (s : Ingest)
      → coerce_event_kind evt.event_type ≡ some kind
      → Ingested tenant (evt ∷ []) s (insert_event parse_iso now tenant evt kind s)
  unfolding insert_event
  insert_event-Ingested evt kind s c =
      elim (Bool-cases (any_where (is_event_of tenant evt.provider_event_id) s.events)) [
        | inl t ↦ rw t (record {
          kept = λ e r. r;
          grown = refl;
          counted = rw c (omega arith);
          stored = (λ h. t, tt);
          unique = λ u. u;
        })
        | inr f ↦
            let x : AnalyticEvent = record {
              id = s.next_id;
              tenant_id = tenant;
              event_type = kind;
              payload = evt.payload;
              provider_event_id = some evt.provider_event_id;
              event_at = parse_iso_or_now parse_iso now evt.occurred_at;
            } in
            let own = own_event tenant evt.provider_event_id x refl refl in
            let more = length-append_one s.events x in
            rw f (record {
              kept = λ e r. Row-append (x ∷ []) r;
              grown = omega (arith, more);
              counted = rw c (omega arith);
              stored = (
                λ h.
                    any_where-of_Row (is_event_of tenant evt.provider_event_id)
                      (s.events ++ (x ∷ [])) (Row-last s.events x) own,
                tt,
              );
              unique = λ u.
                  Pairs-append_one (λ (a b : AnalyticEvent). same_event a b ≡ false) s.events x u
                    (All-map
                      (λ (a : AnalyticEvent). is_event_of tenant evt.provider_event_id a ≡ false)
                      (λ (a : AnalyticEvent). same_event a x ≡ false) s.events
                      (λ a h. same_event_sym tenant evt.provider_event_id a x refl refl h)
                      (any_where-false _ s.events f));
            })
      ]

  ingest_one-Ingested :
      (evt : MappedEvent) (o : Option EventKind) (s : Ingest)
      → coerce_event_kind evt.event_type ≡ o
      → Ingested tenant (evt ∷ []) s (ingest_one parse_iso now tenant evt o s)
  unfolding ingest_one
  ingest_one-Ingested evt (some kind) s c = insert_event-Ingested evt kind s c
  ingest_one-Ingested evt none s c = record {
    kept = λ e r. r;
    grown = refl;
    counted = rw c (omega arith);
    stored = (λ h. cc (rw c at h), tt);
    unique = λ u. u;
  }

  Ingested-trans :
      (evt : MappedEvent) (rest : List MappedEvent) (s t u : Ingest)
      → Ingested tenant (evt ∷ []) s t
      → Ingested tenant rest t u
      → Ingested tenant (evt ∷ rest) s u
  Ingested-trans evt rest s t u a b =
      let g = a.grown in
      let h = b.grown in
      let c = a.counted in
      let d = b.counted in
      record {
        kept = λ e r. b.kept e (a.kept e r);
        grown = omega (arith, g, h);
        counted = omega (arith, c, d);
        stored = (
          λ q.
              any_where-kept (is_event_of tenant evt.provider_event_id) t.events u.events b.kept
                (a.stored.0 q),
          b.stored,
        );
        unique = λ q. b.unique (a.unique q);
      }

  -- The loop stores every recognised event once, keeps what was there, and counts right.
  pub ingest-Ingested :
      (l : List MappedEvent) (s : Ingest) → Ingested tenant l s (ingest parse_iso now tenant l s)
  unfolding ingest
  ingest-Ingested [] s = record {
    kept = λ e r. r;
    grown = refl;
    counted = omega arith;
    stored = tt;
    unique = λ u. u;
  }
  ingest-Ingested (evt ∷ rest) s =
      let next = ingest_one parse_iso now tenant evt (coerce_event_kind evt.event_type) s in
      Ingested-trans evt rest s next (ingest parse_iso now tenant rest next)
        (ingest_one-Ingested evt (coerce_event_kind evt.event_type) s refl)
        (ingest-Ingested rest next)

  ingest_one_known :
      (evt : MappedEvent) (o : Option EventKind) (s : Ingest)
      → coerce_event_kind evt.event_type ≡ o
      → IsStored tenant s.events evt
      → ingest_one parse_iso now tenant evt o s
        ≡ record s { events_deduped = s.events_deduped + (if is_recognised evt then 1 else 0) }
  unfolding ingest_one insert_event
  ingest_one_known evt none s c h =
      let same : s.events_deduped ≡ s.events_deduped + 0 = omega arith in
      rw c (ap (λ (n : ℕ). record s { events_deduped = n }) same)
  ingest_one_known evt (some kind) s c h = let t = h (rw c refl) in rw (c, t) refl

  -- Events that are all stored only raise the count of duplicates.
  pub ingest_known :
      (l : List MappedEvent) (s : Ingest)
      → All (IsStored tenant s.events) l
      → ingest parse_iso now tenant l s
        ≡ record s { events_deduped = s.events_deduped + recognised l }
  unfolding ingest
  ingest_known [] s h =
      let same : s.events_deduped ≡ s.events_deduped + 0 = omega arith in
      ap (λ (n : ℕ). record s { events_deduped = n }) same
  ingest_known (evt ∷ rest) s h =
      let n = if is_recognised evt then 1 else 0 in
      let sum : s.events_deduped + n + recognised rest ≡ s.events_deduped + (n + recognised rest) =
        omega arith in
      ap (ingest parse_iso now tenant rest)
        (ingest_one_known evt (coerce_event_kind evt.event_type) s refl h.0)
      ∙ ingest_known rest (record s { events_deduped = s.events_deduped + n }) h.1
      ∙ ap (λ (m : ℕ). record s { events_deduped = m }) sum
