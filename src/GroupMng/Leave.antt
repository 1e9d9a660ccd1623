-- ===== src/GroupMng/Leave.antt =====
-- The last member leaves a group of server/group_mng.c.
use chat_project.Prelude.{
  ℕ, ◌-◌, ◌<◌, ◌≡◌, refl, ap, sym, ◌∙◌, inl, inr, true, Option, none, some, List, [], ◌∷◌, ◌++◌,
  arith, Option-cases, length, length-set, get_or, get_or-set, set, if◌then◌else◌, ◌==◌,
}
use mathlib.Core.Path.{subst}
use mathlib.Core.Option.{some-injective}
use chat_project.Memory.{Bytes}
use chat_project.Malloc.{Mem, malloc}
use chat_project.HashMap
use chat_project.HashMap.{HashMap}
use chat_project.HashMap.Buckets.{IsValid}
use chat_project.HashMap.Remove.{remove-Removed, pair_value}
use chat_project.HashUtils.Laws.{equal_keys}
use chat_project.FreeMcQueue.{McastPair, pool_size}
use chat_project.Protocol.{ChatStatus}
use chat_project.GroupMng.{GroupMng, Group, deref, set_count, destroy_group, leave_group}
use chat_project.GroupMng.Laws.{group_of, lookup, deref-inside}
use chat_project.GroupMng.Create.{IsInOrder, give_back-IsInOrder}

-- The address of a group.
abbrev pub address_of : Group → McastPair
address_of group = record { ip = group.mcast_ip; port = group.mcast_port }

-- The group at `p` has been destroyed: only its name is gone, its pointer is freed, and its address
-- is free behind the others, or lost if the call of malloc for that fails.
pub record Dissolved (mng : GroupMng) (xs : List McastPair) (name : Bytes) (p : ℕ) (group : Group)
    (mem : Mem) (mng' : GroupMng) : Type 0 where
  pub forgotten :
      (q : Bytes) → group_of mng' q ≡ (if equal_keys q name then none else group_of mng q)
  pub freed : deref mng' p ≡ none
  pub reclaimed : IsInOrder mng' (if (malloc mem).0 then xs ++ address_of group ∷ [] else xs)

reclaimed_with :
    (mng : GroupMng) (xs : List McastPair) (m' : HashMap Bytes ℕ) (store : List (Option Group))
    → IsValid m'
    → m'.keys_equal_func ≡ equal_keys
    → IsInOrder mng xs
    → IsInOrder (record mng { groups_by_name = m'; store = store }) xs
reclaimed_with mng xs m' store valid strings w = record {
  valid = valid;
  strings = strings;
  free = w.free;
}

destroy_group-Dissolved :
    (mng : GroupMng) (xs : List McastPair) (name : Bytes) (p : ℕ) (group : Group) (mem : Mem)
    → IsInOrder mng xs
    → length xs < pool_size
    → group_of mng name ≡ some p
    → p < length mng.store
    → Dissolved mng xs name p group mem (destroy_group mng name group mem).0
unfolding destroy_group
destroy_group-Dissolved mng xs name p group mem w room e inside =
    let back = give_back-IsInOrder mng xs (address_of group) mem w room in
    let (m', run, rem) = remove-Removed mng.groups_by_name name w.valid in
    elim (Option-cases (HashMap.remove (some mng.groups_by_name) (some name)).1) [
      | inl nothing ↦
          let gone : Path (Option ℕ) none (some p) = sym (ap pair_value nothing) ∙ rem.value ∙ e in
          cc
      | inr (kv, taken) ↦
          let same : kv.1 ≡ p = some-injective _ _ (sym (ap pair_value taken) ∙ rem.value ∙ e) in
          rw (run, taken, destroy_group)
            (record {
              forgotten = λ q. rw (ap (λ f. f q name) w.strings) at (rem.reads q);
              freed =
                  subst (λ t. get_or (set mng.store t none) p none ≡ none) (sym same)
                    (get_or-set mng.store p p none none inside ∙ ground arith);
              reclaimed =
                  reclaimed_with _ (if (malloc mem).0 then xs ++ address_of group ∷ [] else xs) m' _
                    rem.valid (rem.same_keys ∙ w.strings) back;
            })
    ]

-- In a manager in order whose pool is not full, for a name that leads to a group with at most one
-- member, leaving answers OK and destroys the group: only its name is gone, its pointer is freed, and
-- its address is free behind the others, or lost if the call of malloc for that fails.
pub leave_group-Dissolved :
    (mng : GroupMng) (xs : List McastPair) (name : Bytes) (p : ℕ) (group : Group) (mem : Mem)
    → IsInOrder mng xs
    → length xs < pool_size
    → group_of mng name ≡ some p
    → deref mng p ≡ some group
    → group.member_count < 2
    → let (status, mng', mem') = leave_group mng name mem in
      (status ≡ ChatStatus.st_ok) × Dissolved mng xs name p group mem mng'
unfolding leave_group
leave_group-Dissolved mng xs name p group mem w room e at last =
    let empty : (group.member_count - 1 == 0) ≡ true = ground (arith, last) in
    let inside = deref-inside mng.store p group at in
    let lowered = set_count mng p group (group.member_count - 1) in
    let done =
      destroy_group-Dissolved lowered xs name p group mem
        (record { valid = w.valid; strings = w.strings; free = w.free }) room e
        (omega (
          arith,
          inside,
          length-set mng.store p (some (record group { member_count = group.member_count - 1 })),
        )) in
    rw (lookup mng name w.valid ∙ e, at, empty, leave_group)
      (refl, record { forgotten = done.forgotten; freed = done.freed; reclaimed = done.reclaimed })
