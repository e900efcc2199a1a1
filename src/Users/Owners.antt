-- ===== src/Users/Owners.antt =====
-- What an update of a member checks and writes, and the active owners that it leaves.
use mathlib.Core.List.{Memᴰ}
use pulse_crm.Prelude.Table.Laws.{find?-test}
use pulse_crm.Prelude.Table.Members.{Distinct, find?-mem, All-of_mem}
use pulse_crm.Prelude.Table.Counts.{
  count-le-update, count-mono-update, count-ext, any-update, count-key-le,
}
use pulse_crm.Prelude.{
  ℕ, ◌≤◌, ◌<◌, ◌≡◌, refl, ◌⊎◌, inl, inr, Bool, true, false, not, ◌&&◌, Option, none, some, String,
  List, All, arith, ◌==◌, bit, leb, raise_if, Bool-cases, find?, count, update, ok, http, require,
  require-eq-ok, raise_if-eq-ok, >>=-eq-ok,
}
use pulse_crm.Models.{Role, is_owner, is_admin, role_eq, User, Membership}
use pulse_crm.Access.{Context}
use pulse_crm.Users.{
  Store, UserUpdate, is_active_owner, active_owner_count, is_elevated, requested_role, check_roles,
  is_current, with_role, rename, write_user, update_user,
}

-- What a successful update checked, and what it wrote.
pub record Updated (s : Store) (c : Context) (user_id : ℕ) (p : UserUpdate)
    (meanwhile : List Membership) (s' : Store) (m' : Membership) : Type 0 where
  pub member : Membership
  pub requested : Role
  pub listed : Memᴰ member s.memberships
  pub inside : member.workspace_id ≡ c.workspace_id
  pub of_user : member.user_id ≡ user_id
  pub role_is : requested_role p member ≡ ok requested
  pub row : Membership
  pub found : find? (is_current c member p.expected_version) meanwhile ≡ some row
  pub result : m' ≡ with_role p requested row
  pub peers : is_admin c.role ≡ true → is_elevated member.role ≡ false
  pub grants : is_admin c.role ≡ true → is_elevated requested ≡ false
  pub self : user_id ≡ c.user_id → role_eq requested member.role ≡ true
  pub last :
      is_owner member.role ≡ true
      → is_owner requested ≡ false
      → 1 < active_owner_count s c.workspace_id
  pub written :
      s'.memberships
      ≡ update (is_current c member p.expected_version) (with_role p requested) meanwhile
  pub users_are :
      (m : Membership)
      → is_active_owner s'.users c.workspace_id m ≡ is_active_owner s.users c.workspace_id m

rename-owners :
    (name : Option String) (user_id workspace_id : ℕ) (users : List User) (m : Membership)
    → is_active_owner (rename name user_id users) workspace_id m
      ≡ is_active_owner users workspace_id m
unfolding rename is_active_owner
rename-owners none user_id workspace_id users m = refl
rename-owners (some name) user_id workspace_id users m = rw (
    any-update (λ (u : User). u.id == m.user_id && u.is_active) (λ u. u.id == user_id)
      (λ u. record u { full_name = name }) (λ u. refl) users)

checks :
    (s : Store) (c : Context) (user_id : ℕ) (m : Membership) (requested : Role) (u : Unit {0})
    → check_roles s c user_id m requested ≡ ok u
    → (is_admin c.role ≡ true → is_elevated m.role ≡ false)
      × (is_admin c.role ≡ true → is_elevated requested ≡ false)
      × (user_id ≡ c.user_id → role_eq requested m.role ≡ true)
      × (is_owner m.role ≡ true
          → is_owner requested ≡ false
          → 1 < active_owner_count s c.workspace_id)
unfolding check_roles
checks s c user_id m requested u e =
    let (a, e1) =
      raise_if-eq-ok (is_admin c.role && is_elevated m.role)
        (http 403 "administrators cannot edit owners or other administrators") _ e in
    let (b, e2) =
      raise_if-eq-ok (is_admin c.role && is_elevated requested)
        (http 403 "only the workspace owner can assign elevated roles") _ e1 in
    let (d, e3) =
      raise_if-eq-ok (user_id == c.user_id && not (role_eq requested m.role))
        (http 409 "self_role_change_forbidden") _ e2 in
    (λ h. and_left a h, λ h. and_left b h, λ h. same d h, λ h k. many e3 h k)
  where
    and_left : {x y : Bool} → (x && y) ≡ false → x ≡ true → y ≡ false
    and_left {x} {y} n h = ground arith

    same :
        (user_id == c.user_id && not (role_eq requested m.role)) ≡ false
        → user_id ≡ c.user_id
        → role_eq requested m.role ≡ true
    same n h = ground arith

    many :
        raise_if
            (is_owner m.role
              && not (is_owner requested)
              && leb (active_owner_count s c.workspace_id) 1)
            (http 409 "last_owner_required")
          ≡ ok u
        → is_owner m.role ≡ true
        → is_owner requested ≡ false
        → 1 < active_owner_count s c.workspace_id
    many n h k = ground arith

writes :
    (s : Store) (c : Context) (user : User) (p : UserUpdate) (m : Membership) (requested : Role)
    (meanwhile : List Membership) (m' : Membership) (s' : Store)
    → write_user s c user p m requested meanwhile ≡ ok (m', s')
    → (x : Membership) × (find? (is_current c m p.expected_version) meanwhile ≡ some x)
      × (m' ≡ with_role p requested x)
      × (s'.memberships
          ≡ update (is_current c m p.expected_version) (with_role p requested) meanwhile)
      × (s'.users ≡ rename p.full_name user.id s.users)
unfolding write_user
writes s c user p m requested meanwhile m' s' e =
    let (x, e1, e2) =
      >>=-eq-ok
        (require (find? (is_current c m p.expected_version) meanwhile)
          (http 409 "version_conflict"))
        _ e in
    (x, require-eq-ok _ (http 409 "version_conflict") e1, ground arith, ground arith, ground arith)

module _ (s : Store) (c : Context) (user_id : ℕ) (p : UserUpdate) (meanwhile : List Membership)
    (s' : Store) (m' : Membership) (e : update_user s c user_id p meanwhile ≡ ok (m', s')) where
  pub update_user-Updated : Updated s c user_id p meanwhile s' m'
  unfolding update_user
  update_user-Updated =
      let here = λ (m : Membership). m.workspace_id == c.workspace_id && m.user_id == user_id in
      let (user, e1, r1) =
        >>=-eq-ok
          (require (find? (λ u. u.id == user_id && u.is_active) s.users)
            (http 404 "user not found"))
          _ e in
      let (m, e2, r2) =
        >>=-eq-ok (require (find? here s.memberships) (http 404 "user not found")) _ r1 in
      let (requested, e3, r3) = >>=-eq-ok (requested_role p m) _ r2 in
      let (u, e4, r4) = >>=-eq-ok (check_roles s c user_id m requested) _ r3 in
      let found : find? here s.memberships ≡ some m =
        require-eq-ok _ (http 404 "user not found") e2 in
      let t : here m ≡ true = find?-test here s.memberships found in
      let (peers, grants, self, last) = checks s c user_id m requested u e4 in
      let (x, hit, made, table, names) = writes s c user p m requested meanwhile m' s' r4 in
      record {
        member = m;
        requested = requested;
        listed = find?-mem here s.memberships found;
        inside = ground arith;
        of_user = ground arith;
        role_is = e3;
        row = x;
        found = hit;
        result = made;
        peers = peers;
        grants = grants;
        self = self;
        last = last;
        written = table;
        users_are = λ y. rw names (rename-owners p.full_name user.id c.workspace_id s.users y);
      }

  row_counts :
      (d : Updated s c user_id p meanwhile s' m')
      → ((x y : Membership)
          → Memᴰ x meanwhile
          → Memᴰ y s.memberships
          → y.user_id ≡ user_id
          → x.id ≡ y.id
          → x.version ≡ p.expected_version
          → x ≡ y)
      → (is_owner d.member.role ≡ false) ⊎ (is_owner d.requested ≡ true)
      → All
          (λ x.
            is_current c d.member p.expected_version x ≡ true
            → bit (is_active_owner s.users c.workspace_id x)
              ≤ bit (is_active_owner s.users c.workspace_id (with_role p d.requested x)))
          meanwhile
  row_counts d stable kept = All-of_mem _ meanwhile λ x m t.
      let one : x ≡ d.member =
        stable x d.member m d.listed d.of_user (unfold is_current in ground arith)
          (unfold is_current in ground arith) in
      rw one (unfold is_active_owner with_role in ground arith)

  -- A workspace that has an active owner has one after an update that is accepted, if the requests
  -- that commit between its checks and its UPDATE leave no fewer active owners than it read, and leave
  -- the row of the member as it was where they leave its version the expected one. The ids of the
  -- memberships are distinct.
  pub update_user-keeps_owner :
      Distinct (λ (m : Membership). m.id) meanwhile
      → ((x y : Membership)
          → Memᴰ x meanwhile
          → Memᴰ y s.memberships
          → y.user_id ≡ user_id
          → x.id ≡ y.id
          → x.version ≡ p.expected_version
          → x ≡ y)
      → active_owner_count s c.workspace_id
        ≤ count (is_active_owner s.users c.workspace_id) meanwhile
      → 0 < active_owner_count s c.workspace_id
      → 0 < active_owner_count s' c.workspace_id
  unfolding active_owner_count
  update_user-keeps_owner unique stable others h =
      let d = update_user-Updated in
      let q = is_active_owner s.users c.workspace_id in
      let hit = is_current c d.member p.expected_version in
      let f = with_role p d.requested in
      let same : count (is_active_owner s'.users c.workspace_id) s'.memberships
          ≡ count q (update hit f meanwhile) =
        rw d.written (
          count-ext (is_active_owner s'.users c.workspace_id) q d.users_are
            (update hit f meanwhile)) in
      let stays = λ (kept : (is_owner d.member.role ≡ false) ⊎ (is_owner d.requested ≡ true)).
        count-mono-update q hit f meanwhile (row_counts d stable kept) in
      rw same (elim (Bool-cases (is_owner d.member.role)) [
        | inr never ↦ omega (arith, others, stays (inl never))
        | inl was ↦ elim (Bool-cases (is_owner d.requested)) [
          | inl still ↦ omega (arith, others, stays (inr still))
          | inr gone ↦ omega (
            arith,
            others,
            d.last was gone,
            count-le-update q hit f meanwhile (
                count-key-le (λ (m : Membership). m.id) d.member.id hit
                  (λ x t. unfold is_current in ground arith) meanwhile unique),
          )
        ]
      ])
