-- ===== src/Imports/Pages.antt =====
-- A page of the import against its specification: a ledger of fingerprints, in which each entity of
-- the page is entered under its external id.
use pulse_crm.Prelude.Table.Laws.{find?-update}
use pulse_crm.Prelude.{
  ℕ, ◌+◌, ◌≡◌, refl, sym, ap, ◌∙◌, ◌≢◌, inl, inr, String, str_eq, eq_iff, Bool, true, false, Option,
  none, some, List, [], ◌∷◌, All, arith, if◌then◌else◌, Bool-cases, find?, any, update,
}
use pulse_crm.Imports.{ImportJob, ExternalEntityMap, AmoEntity, Counters}
use pulse_crm.Imports.Apply.{has_duplicates, is_mapped, new_map, refreshed, fingerprint}

abbrev pub total : Counters → ℕ
total c = c.created + c.updated + c.unchanged + c.would_create + c.would_update

abbrev pub print_of : Option ExternalEntityMap → Option String
print_of none = none
print_of (some m) = some m.fingerprint

-- The ledger of a table: the fingerprint under an external id, for a job's workspace and provider.
unfoldable pub ledger : ImportJob → String → List ExternalEntityMap → String → Option String
ledger job entity_type maps key = print_of (find? (is_mapped job entity_type key) maps)

find?-update_apart :
    (q p : ExternalEntityMap → Bool) (f : ExternalEntityMap → ExternalEntityMap)
    → ((x : ExternalEntityMap) → p x ≡ true → q x ≡ false)
    → ((x : ExternalEntityMap) → p x ≡ true → q (f x) ≡ false)
    → (xs : List ExternalEntityMap) → find? q (update p f xs) ≡ find? q xs
unfolding find? update
find?-update_apart q p f old new [] = refl
find?-update_apart q p f old new (x ∷ xs) =
    let rest = find?-update_apart q p f old new xs in
    elim (Bool-cases (p x)) [
      | inl e ↦ rw (e, old x e, new x e) rest
      | inr e ↦ elim (Bool-cases (q x)) [ inl g ↦ rw (e, g) refl | inr g ↦ rw (e, g) rest ]
    ]

module _ (job : ImportJob) (entity_type : String) where
  is_mapped_new :
      (e : AmoEntity) (print : String) (n : ℕ)
      → is_mapped job entity_type e.external_id (new_map job entity_type e print n) ≡ true
  unfolding is_mapped
  is_mapped_new e print n = ground (
    arith,
    eq_iff job.provider job.provider,
    eq_iff entity_type entity_type,
    eq_iff e.external_id e.external_id,
  )

  is_mapped-key :
      (key : String) (m : ExternalEntityMap)
      → is_mapped job entity_type key m ≡ true
      → m.external_id ≡ key
  unfolding is_mapped
  is_mapped-key key m h = ground (arith, eq_iff m.external_id key)

  apart :
      (key other : String) (m : ExternalEntityMap)
      → key ≢ other
      → is_mapped job entity_type key m ≡ true
      → is_mapped job entity_type other m ≡ false
  apart key other m ne h = elim (Bool-cases (is_mapped job entity_type other m)) [
    | inl g ↦ absurd (ne (sym (is_mapped-key key m h) ∙ is_mapped-key other m g))
    | inr g ↦ g
  ]

  -- Entering a fingerprint in the table is entering it in the ledger.
  pub ledger-new :
      (e : AmoEntity) (print : String) (n : ℕ) (maps : List ExternalEntityMap)
      → ledger job entity_type (new_map job entity_type e print n ∷ maps) e.external_id ≡ some print
  unfolding ledger find?
  ledger-new e print n maps = rw (is_mapped_new e print n) refl

  pub ledger-new_other :
      (e : AmoEntity) (print : String) (n : ℕ) (maps : List ExternalEntityMap) (key : String)
      → e.external_id ≢ key
      → ledger job entity_type (new_map job entity_type e print n ∷ maps) key
        ≡ ledger job entity_type maps key
  unfolding ledger find?
  ledger-new_other e print n maps key ne =
      rw (apart e.external_id key (new_map job entity_type e print n) ne (is_mapped_new e print n))
        refl

  pub ledger-refreshed :
      (e : AmoEntity) (print : String) (n : ℕ) (maps : List ExternalEntityMap)
      (m : ExternalEntityMap)
      → find? (is_mapped job entity_type e.external_id) maps ≡ some m
      → ledger job entity_type
          (update (is_mapped job entity_type e.external_id) (refreshed job e print n) maps)
          e.external_id
        ≡ some print
  unfolding ledger
  ledger-refreshed e print n maps m found =
      rw
        (find?-update (is_mapped job entity_type e.external_id) (refreshed job e print n)
          (λ x h. unfold is_mapped in h) maps found)
        refl

  pub ledger-refreshed_other :
      (e : AmoEntity) (print : String) (n : ℕ) (maps : List ExternalEntityMap) (key : String)
      → e.external_id ≢ key
      → ledger job entity_type
          (update (is_mapped job entity_type e.external_id) (refreshed job e print n) maps)
          key
        ≡ ledger job entity_type maps key
  unfolding ledger
  ledger-refreshed_other e print n maps key ne =
      rw
        (find?-update_apart (is_mapped job entity_type key)
          (is_mapped job entity_type e.external_id) (refreshed job e print n)
          (λ x h. apart e.external_id key x ne h)
          (λ x h. unfold is_mapped in apart e.external_id key x ne h) maps)
        refl

module _ (sha256 : String → String) where
  -- The specification of a page: the fingerprints of its entities over those of the ledger.
  abbrev pub enter_all : List AmoEntity → (String → Option String) → String → Option String
  enter_all [] before key = before key
  enter_all (e ∷ es) before key =
      let later = enter_all es before key in
      if str_eq e.external_id key then some (fingerprint sha256 e) else later

  pub enter_all-ext :
      (es : List AmoEntity) (l l' : String → Option String) (key : String)
      → l key ≡ l' key
      → enter_all es l key ≡ enter_all es l' key
  enter_all-ext [] l l' key h = h
  enter_all-ext (e ∷ es) l l' key h =
      ap (λ r. if str_eq e.external_id key then some (fingerprint sha256 e) else r)
        (enter_all-ext es l l' key h)

  pub enter_all_absent :
      (e : AmoEntity) (es : List AmoEntity) (l : String → Option String)
      → any (λ (o : AmoEntity). str_eq o.external_id e.external_id) es ≡ false
      → enter_all es l e.external_id ≡ l e.external_id
  unfolding any
  enter_all_absent e [] l h = refl
  enter_all_absent e (o ∷ os) l h = ground (arith, enter_all_absent e os l)

  absent-All :
      (k : String) (es : List AmoEntity)
      → any (λ (o : AmoEntity). str_eq o.external_id k) es ≡ false
      → All (λ (o : AmoEntity). str_eq k o.external_id ≡ false) es
  unfolding any
  absent-All k [] h = tt
  absent-All k (o ∷ os) h = (
    ground (arith, eq_iff k o.external_id, eq_iff o.external_id k),
    absent-All k os (ground arith),
  )

  -- After a page without duplicates, each of its entities has its own fingerprint.
  pub enter_all-All :
      (es : List AmoEntity) (l : String → Option String)
      → has_duplicates es ≡ false
      → All (λ (e : AmoEntity). enter_all es l e.external_id ≡ some (fingerprint sha256 e)) es
  unfolding has_duplicates
  enter_all-All [] l h = tt
  enter_all-All (e ∷ es) l h = (
    rw ((eq_iff e.external_id e.external_id).1 refl) refl,
    both es (absent-All e.external_id es (ground arith)) (enter_all-All es l (ground arith)),
  )
    where
      both :
          (os : List AmoEntity)
          → All (λ (o : AmoEntity). str_eq e.external_id o.external_id ≡ false) os
          → All (λ (o : AmoEntity). enter_all es l o.external_id ≡ some (fingerprint sha256 o)) os
          → All
              (λ (o : AmoEntity). enter_all (e ∷ es) l o.external_id ≡ some (fingerprint sha256 o))
              os
      both [] a b = tt
      both (o ∷ os) (a, rest) (b, known) = (rw a b, both os rest known)
