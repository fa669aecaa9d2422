-- ===== src/Approvals/Tally.antt =====
-- What a batch answers (app/api/approvals.py, `batch_approve`): each asset as often as it was named, and
-- each platform's approvals.
use marketing_agentic_system.Common.{
  ℕ, ◌+◌, ◌≡◌, refl, sym, subst, ap, ◌∙◌, String, Bool, true, false, ◌&&◌, Option, none, some, List,
  [], ◌∷◌, arith, inl, inr, Bool-cases, if◌then◌else◌, ◌==◌, ==_iff, str_eq, find_where,
  update_where, count_where, count_where-append,
}
use marketing_agentic_system.Data.{AssetStatus, AppUser, ContentAsset, Campaign, Db, has_asset_id}
use marketing_agentic_system.Approvals.{decide, insert_decision, load_asset_and_campaign}
use marketing_agentic_system.Approvals.Loading.{load-Loaded}
use marketing_agentic_system.Approvals.Filters.{screen-IsScreened}
use marketing_agentic_system.Approvals.Batch.{
  Exclusion, write_failed, Screened, excluded, passed, screen_loaded, screen_campaign, screen_asset,
  screen, platform_for, BatchState, WriteError, exclude, approve_entry, counted, write_approval,
  batch_write, batch_screened, batch_each,
}
use marketing_agentic_system.Approvals.Counts.{
  count_for, is_write_failed, has_platform, is_on, count_up-count_for,
}

-- A filter's reason is never that a write failed.
abbrev IsFilterReason : Screened → Type 0
IsFilterReason o = (why : Exclusion) → o ≡ excluded why → is_write_failed why ≡ false

screen_loaded-reason :
    (user : AppUser) (a : ContentAsset) (c : Campaign) → IsFilterReason (screen_loaded user a c)
unfolding screen_loaded is_write_failed
screen_loaded-reason user a c why h = ground arith

screen_campaign-reason :
    (user : AppUser) (a : ContentAsset) (o : Option Campaign)
    → IsFilterReason (screen_campaign user a o)
unfolding screen_campaign is_write_failed
screen_campaign-reason user a none why h = ground arith
screen_campaign-reason user a (some c) why h = screen_loaded-reason user a c why h

screen_asset-reason :
    (db : Db) (user : AppUser) (o : Option ContentAsset) → IsFilterReason (screen_asset db user o)
unfolding screen_asset is_write_failed
screen_asset-reason db user none why h = ground arith
screen_asset-reason db user (some a) why h = screen_campaign-reason user a _ why h

pub screen-found :
    (db : Db) (user : AppUser) (i : ℕ) (a : ContentAsset) (c : Campaign)
    → screen db user i ≡ passed a c
    → (find_where (has_asset_id i) db.assets ≡ some a) × (a.id ≡ i)
unfolding load_asset_and_campaign
screen-found db user i a c h =
    let l = load-Loaded db i a c _ refl ((screen-IsScreened db user i a c).0 h).0 in (l.found, l.id)

pub find_where-update_where {ℓ} :
    {A : Type ℓ} (p q : A → Bool) (f : A → A) (l : List A)
    → ((x : A) → q x ≡ true → (p x ≡ false) × (p (f x) ≡ false))
    → find_where p (update_where q f l) ≡ find_where p l
find_where-update_where p q f [] h = refl
find_where-update_where p q f (x ∷ xs) h = elim (Bool-cases (q x)) [
  | inl t ↦ rw (t, (h x t).0, (h x t).1) (find_where-update_where p q f xs h)
  | inr t ↦ rw t (ap (λ r. if p x then some x else r) (find_where-update_where p q f xs h))
]

find_where-replaced {ℓ} :
    {A : Type ℓ} (p : A → Bool) (y z : A) (l : List A)
    → p z ≡ true
    → find_where p l ≡ some y
    → find_where p (update_where p (λ _. z) l) ≡ some z
find_where-replaced p y z [] h e = cc
find_where-replaced p y z (x ∷ xs) h e = elim (Bool-cases (p x)) [
  | inl t ↦ rw (t, h) refl
  | inr f ↦ rw (f, f) (find_where-replaced p y z xs h (rw f at e))
]

-- The write of an approval leaves every asset's platform as it was.
write_approval-is_on :
    (db : Db) (user : AppUser) (i : ℕ) (a : ContentAsset) (c : Campaign) (k : String) (j : ℕ)
    → find_where (has_asset_id i) db.assets ≡ some a
    → a.id ≡ i
    → is_on (write_approval db user a c).0 k j ≡ is_on db k j
unfolding write_approval decide insert_decision has_platform platform_for
write_approval-is_on db user i a c k j found same = elim (Bool-cases (a.id == j)) [
  | inl t ↦
      let at : j ≡ a.id = sym ((==_iff a.id j).0 t) in
      let found' : find_where (has_asset_id a.id) db.assets ≡ some a =
        subst (λ x. find_where (has_asset_id x) db.assets ≡ some a) (sym same) found in
      let approved = record a { status = AssetStatus.approved } in
      let self : (a.id == a.id) ≡ true = (==_iff a.id a.id).1 refl in
      let after = find_where-replaced (has_asset_id a.id) a approved db.assets self found' in
      subst (λ x. is_on (write_approval db user a c).0 k x ≡ is_on db k x) (sym at)
        (rw (found', after) refl)
  | inr f ↦ ap (has_platform k) (
      find_where-update_where (has_asset_id j) (has_asset_id a.id)
        (λ _. record a { status = AssetStatus.approved }) db.assets
        (λ x e. (ground (arith, e, f), f)))
]

-- After a part of the loop, by the platforms of the database before it.
pub record Tallied (db : Db) (k : String) (s : BatchState) : Type 0 where
  pub kept : (i : ℕ) → is_on s.db k i ≡ is_on db k i
  pub channels :
      count_for k s.channel_counts
      ≡ count_where (λ (e : ℕ × Option ℕ). is_on db k e.0) s.approved
        + count_where
            (λ (e : ℕ × Exclusion). is_write_failed e.1 && is_on db k e.0)
            s.excluded_entries

exclude-Tallied :
    (db : Db) (k : String) (i : ℕ) (why : Exclusion) (s : BatchState)
    → is_write_failed why ≡ false
    → Tallied db k s
    → Tallied db k (exclude i why s)
unfolding exclude
exclude-Tallied db k i why s w t =
    let l =
      count_where-append (λ (e : ℕ × Exclusion). is_write_failed e.1 && is_on db k e.0)
        s.excluded_entries ((i, why) ∷ []) in
    let c = t.channels in
    record { kept = t.kept; channels = let one = rw w at l in omega (arith, one, c) }

approve-Tallied :
    (db : Db) (k : String) (i : ℕ) (d : Option ℕ) (a : ContentAsset) (c : Campaign) (s : BatchState)
    (db' : Db)
    → is_on db k i ≡ str_eq (platform_for a) k
    → ((j : ℕ) → is_on db' k j ≡ is_on db k j)
    → Tallied db k s
    → Tallied db k (approve_entry i d (record (counted a c s) { db = db' }))
unfolding approve_entry counted
approve-Tallied db k i d a c s db' on kept t =
    let l = count_where-append (λ (e : ℕ × Option ℕ). is_on db k e.0) s.approved ((i, d) ∷ []) in
    let n = count_up-count_for (platform_for a) k s.channel_counts in
    let b = t.channels in
    record { kept = kept; channels = let one = rw on at l in omega (arith, one, n, b) }

failed-Tallied :
    (db : Db) (k : String) (i : ℕ) (error : String) (a : ContentAsset) (c : Campaign)
    (s : BatchState)
    → is_on db k i ≡ str_eq (platform_for a) k
    → Tallied db k s
    → Tallied db k (exclude i (write_failed error) (counted a c s))
unfolding exclude counted is_write_failed
failed-Tallied db k i error a c s on t =
    let l =
      count_where-append (λ (e : ℕ × Exclusion). is_write_failed e.1 && is_on db k e.0)
        s.excluded_entries ((i, write_failed error) ∷ []) in
    let n = count_up-count_for (platform_for a) k s.channel_counts in
    let b = t.channels in
    record { kept = t.kept; channels = let one = rw on at l in omega (arith, one, n, b) }

passed-Tallied :
    (db : Db) (k : String) (e : Option String) (user : AppUser) (i : ℕ) (a : ContentAsset)
    (c : Campaign) (s : BatchState)
    → find_where (has_asset_id i) s.db.assets ≡ some a
    → a.id ≡ i
    → is_on db k i ≡ str_eq (platform_for a) k
    → Tallied db k s
    → Tallied db k (batch_write e user i a c (counted a c s))
unfolding batch_write counted
passed-Tallied db k (some error) user i a c s found same on t =
    failed-Tallied db k i error a c s on t
passed-Tallied db k none user i a c s found same on t =
    let (db', decision) = write_approval s.db user a c in
    approve-Tallied db k i (some decision.id) a c s db' on
      (λ j. write_approval-is_on s.db user i a c k j found same ∙ t.kept j) t

screened-Tallied :
    (db : Db) (k : String) (dry_run : Bool) (write_error : WriteError) (user : AppUser) (i : ℕ)
    (o : Screened) (s : BatchState)
    → screen s.db user i ≡ o
    → Tallied db k s
    → Tallied db k (batch_screened dry_run write_error user i o s)
unfolding batch_screened screen has_platform counted
screened-Tallied db k dry_run write_error user i (excluded why) s h t =
    exclude-Tallied db k i why s (screen_asset-reason s.db user _ why h) t
screened-Tallied db k true write_error user i (passed a c) s h t =
    let (found, same) = screen-found s.db user i a c h in
    approve-Tallied db k i none a c s s.db (sym (t.kept i) ∙ ap (has_platform k) found) t.kept t
screened-Tallied db k false write_error user i (passed a c) s h t =
    let (found, same) = screen-found s.db user i a c h in
    passed-Tallied db k (write_error i) user i a c s found same
      (sym (t.kept i) ∙ ap (has_platform k) found) t

pub each-Tallied :
    (db : Db) (k : String) (dry_run : Bool) (write_error : WriteError) (user : AppUser)
    (ids : List ℕ) (s : BatchState)
    → Tallied db k s
    → Tallied db k (batch_each dry_run write_error user ids s)
unfolding batch_each
each-Tallied db k dry_run write_error user [] s t = t
each-Tallied db k dry_run write_error user (i ∷ rest) s t =
    each-Tallied db k dry_run write_error user rest
      (batch_screened dry_run write_error user i (screen s.db user i) s)
      (screened-Tallied db k dry_run write_error user i (screen s.db user i) s refl t)
