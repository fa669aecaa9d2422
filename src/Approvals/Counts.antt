-- ===== src/Approvals/Counts.antt =====
-- How often a batch (app/api/approvals.py, `batch_approve`) answers each asset, and the counts of its
-- platforms.
use marketing_agentic_system.Common.{
  ℕ, ◌+◌, ◌≡◌, refl, sym, ◌∙◌, String, Bool, true, false, Option, none, some, List, [], ◌∷◌, arith,
  inl, inr, Bool-cases, if◌then◌else◌, ◌==◌, str_eq, str_eq_iff, find_where, count_where,
  count_where-append,
}
use marketing_agentic_system.Data.{AppUser, ContentAsset, Campaign, Db, has_asset_id}
use marketing_agentic_system.Approvals.Batch.{
  Exclusion, write_failed, Screened, excluded, passed, screen, count_up, platform_for, BatchState,
  WriteError, exclude, approve_entry, counted, write_approval, batch_write, batch_screened,
  batch_each,
}

-- An entry of a response names the asset.
abbrev pub names {ℓ} : {A : Type ℓ} → ℕ → ℕ × A → Bool
names i entry = entry.0 == i

-- How often the entries name an asset.
abbrev pub answered : ℕ → BatchState → ℕ
answered j s = count_where (names j) s.approved + count_where (names j) s.excluded_entries

exclude-answered :
    (j i : ℕ) (why : Exclusion) (s : BatchState)
    → answered j (exclude i why s) ≡ answered j s + (if i == j then 1 else 0)
unfolding exclude
exclude-answered j i why s =
    let l = count_where-append (names j) s.excluded_entries ((i, why) ∷ []) in omega (arith, l)

approve-answered :
    (j i : ℕ) (d : Option ℕ) (s : BatchState)
    → answered j (approve_entry i d s) ≡ answered j s + (if i == j then 1 else 0)
unfolding approve_entry
approve-answered j i d s =
    let l = count_where-append (names j) s.approved ((i, d) ∷ []) in omega (arith, l)

write-answered :
    (j : ℕ) (e : Option String) (user : AppUser) (i : ℕ) (a : ContentAsset) (c : Campaign)
    (s : BatchState)
    → answered j (batch_write e user i a c s) ≡ answered j s + (if i == j then 1 else 0)
unfolding batch_write
write-answered j (some e) user i a c s = exclude-answered j i (write_failed e) s
write-answered j none user i a c s =
    let (db', decision) = write_approval s.db user a c in
    approve-answered j i (some decision.id) (record s { db = db' })

screened-answered :
    (j : ℕ) (dry_run : Bool) (write_error : WriteError) (user : AppUser) (i : ℕ) (o : Screened)
    (s : BatchState)
    → answered j (batch_screened dry_run write_error user i o s)
      ≡ answered j s + (if i == j then 1 else 0)
unfolding batch_screened counted
screened-answered j dry_run write_error user i (excluded why) s = exclude-answered j i why s
screened-answered j true write_error user i (passed a c) s =
    approve-answered j i none (counted a c s)
screened-answered j false write_error user i (passed a c) s =
    write-answered j (write_error i) user i a c (counted a c s)

pub each-answered :
    (j : ℕ) (dry_run : Bool) (write_error : WriteError) (user : AppUser) (ids : List ℕ)
    (s : BatchState)
    → answered j (batch_each dry_run write_error user ids s)
      ≡ answered j s + count_where (λ i. i == j) ids
unfolding batch_each
each-answered j dry_run write_error user [] s = omega arith
each-answered j dry_run write_error user (i ∷ rest) s =
    let s' = batch_screened dry_run write_error user i (screen s.db user i) s in
    let one = screened-answered j dry_run write_error user i (screen s.db user i) s in
    let all = each-answered j dry_run write_error user rest s' in omega (arith, one, all)

-- The count of a platform in a summary.
unfoldable pub count_for : String → List (String × ℕ) → ℕ
count_for k [] = 0
count_for k ((j, n) ∷ rest) = let more = count_for k rest in if str_eq j k then n else more

unfoldable pub is_write_failed : Exclusion → Bool
is_write_failed (write_failed e) = true
is_write_failed _ = false

unfoldable pub has_platform : String → Option ContentAsset → Bool
has_platform k none = false
has_platform k (some a) = str_eq (platform_for a) k

-- The asset with this id is one for the platform.
abbrev pub is_on : Db → String → ℕ → Bool
is_on db k i = has_platform k (find_where (has_asset_id i) db.assets)

count_up-other :
    (key k j : String) (n : ℕ) → str_eq j key ≡ false → str_eq j k ≡ true → str_eq key k ≡ false
count_up-other key k j n e h = elim (Bool-cases (str_eq key k)) [
  | inl t ↦
      let same : j ≡ key = (str_eq_iff j k).0 h ∙ sym ((str_eq_iff key k).0 t) in
      cc ((str_eq_iff j key).1 same, e)
  | inr f ↦ f
]

pub count_up-count_for :
    (key k : String) (counts : List (String × ℕ))
    → count_for k (count_up key counts) ≡ count_for k counts + (if str_eq key k then 1 else 0)
unfolding count_up count_for
count_up-count_for key k [] = elim (Bool-cases (str_eq key k)) [
  | inl t ↦ rw t refl
  | inr f ↦ rw f refl
]
count_up-count_for key k ((j, n) ∷ rest) =
    let ih = count_up-count_for key k rest in
    elim (Bool-cases (str_eq j key)) [
      | inl t ↦
          let same = (str_eq_iff j key).0 t in
          elim (Bool-cases (str_eq key k)) [
            | inl u ↦ let v : str_eq j k ≡ true = rw same u in rw (t, u, v) refl
            | inr u ↦ let v : str_eq j k ≡ false = rw same u in rw (t, u, v) (omega arith)
          ]
      | inr f ↦ elim (Bool-cases (str_eq j k)) [
        | inl u ↦ let v = count_up-other key k j n f u in rw (f, u, v) (omega arith)
        | inr u ↦ rw (f, u) ih
      ]
    ]
