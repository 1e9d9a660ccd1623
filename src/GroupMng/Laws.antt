-- ===== src/GroupMng/Laws.antt =====
-- Creating, joining and leaving in server/group_mng.c, on a manager that is in order.
use chat_project.Prelude.{
  ℕ, zero, suc, ◌+◌, ◌-◌, ◌<◌, ◌≡◌, refl, ap, sym, ◌∙◌, Option, none, some, List, [], ◌∷◌, arith,
  length, get_or, get_or-set, set, ne→eqb,
}
use chat_project.Memory.{Bytes}
use chat_project.Malloc.{Mem}
use chat_project.HashMap
use chat_project.HashMap.{HashMap}
use chat_project.HashMap.Buckets.{view, IsValid}
use chat_project.HashMap.Find.{find-view, found_result}
use chat_project.Protocol.{ChatStatus}
use chat_project.GroupMng.{GroupMng, Group, deref, set_count, join_group, leave_group}

-- The pointer that the index of names holds.
abbrev pub group_of : GroupMng → Bytes → Option ℕ
group_of mng name = view mng.groups_by_name name

pub found_value : {V : Type 0} (v : Option V) → (found_result v).1 ≡ v
found_value none = refl
found_value (some x) = refl

pub lookup :
    (mng : GroupMng) (name : Bytes)
    → IsValid mng.groups_by_name
    → (HashMap.find (some mng.groups_by_name) (some name)).1 ≡ group_of mng name
lookup mng name v =
    ap (λ r. r.1) (find-view mng.groups_by_name name v) ∙ found_value (group_of mng name)

-- A pointer that leads to a group is in the store.
pub deref-inside :
    (store : List (Option Group)) (p : ℕ) (g : Group)
    → get_or store p none ≡ some g
    → p < length store
deref-inside [] p g h = cc
deref-inside (o ∷ os) zero g h = omega arith
deref-inside (o ∷ os) (suc p) g h = omega (arith, deref-inside os p g h)

set-twice :
    (store : List (Option Group)) (p : ℕ) (g : Group) (o : Option Group)
    → get_or store p none ≡ some g
    → set (set store p o) p (some g) ≡ store
set-twice [] p g o h = refl
set-twice (x ∷ xs) zero g o h = ap (λ t. t ∷ xs) (sym h)
set-twice (x ∷ xs) (suc p) g o h = ap (λ t. x ∷ t) (set-twice xs p g o h)

joined_group :
    (mng : GroupMng) (name : Bytes) (p : ℕ) (group : Group)
    → IsValid mng.groups_by_name
    → group_of mng name ≡ some p
    → deref mng p ≡ some group
    → join_group mng name
      ≡ (ChatStatus.st_ok, some p, set_count mng p group (group.member_count + 1))
unfolding join_group
joined_group mng name p group v e at = rw (lookup mng name v ∙ e, at, join_group)

left_group :
    (mng : GroupMng) (name : Bytes) (mem : Mem) (p : ℕ) (group : Group)
    → IsValid mng.groups_by_name
    → group_of mng name ≡ some p
    → deref mng p ≡ some group
    → 1 < group.member_count
    → leave_group mng name mem
      ≡ (ChatStatus.st_ok, set_count mng p group (group.member_count - 1), mem)
unfolding leave_group
left_group mng name mem p group v e at more =
    rw (lookup mng name v ∙ e, at, ne→eqb (group.member_count - 1) 0 (omega arith), leave_group)

-- With a valid index, for a name that leads to a group with members, joining answers OK and that
-- group, and leaving after it answers OK and gives back the manager as it was, whatever the allocator
-- does.
pub leave_group-join_group :
    (mng : GroupMng) (name : Bytes) (mem : Mem) (p : ℕ) (group : Group)
    → IsValid mng.groups_by_name
    → group_of mng name ≡ some p
    → deref mng p ≡ some group
    → 0 < group.member_count
    → let (status, out_group, mng') = join_group mng name in
      (status ≡ ChatStatus.st_ok)
      × (out_group ≡ some p)
      × (leave_group mng' name mem ≡ (ChatStatus.st_ok, mng, mem))
leave_group-join_group mng name mem p group v e at some_member =
    let raised = set_count mng p group (group.member_count + 1) in
    let inside = deref-inside mng.store p group at in
    let now : deref raised p ≡ some (record group { member_count = group.member_count + 1 }) =
      get_or-set mng.store p p (some (record group { member_count = group.member_count + 1 })) none
        inside
      ∙ ground arith in
    let less : group.member_count + 1 - 1 ≡ group.member_count = omega arith in
    rw (joined_group mng name p group v e at) (
      refl,
      refl,
      left_group raised name mem p (record group { member_count = group.member_count + 1 }) v e now
            (omega arith)
          ∙ ap (λ st. (ChatStatus.st_ok, record mng { store = st }, mem))
              (ap (λ n. set raised.store p (some (record group { member_count = n }))) less
                ∙ set-twice mng.store p group _ at),
    )
