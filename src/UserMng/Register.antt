-- ===== src/UserMng/Register.antt =====
-- The registration of server/user_mng.c, whatever allocations fail.
use chat_project.Prelude.{
  ℕ, ◌≡◌, refl, ap, sym, ◌∙◌, ◌⊎◌, inl, inr, true, false, Option, none, some, [], ◌∷◌, ◌++◌, arith,
  Bool-cases, length, get_elem?, get_elem?-snoc, get_elem?-end, get_elem?-inside, if◌then◌else◌,
  take, take_all, ◌&&◌, ◌≤◌,
}
use mathlib.Core.Path.{subst}
use mathlib.Core.Option.{some-injective}
use chat_project.Memory.{Bytes}
use chat_project.Malloc.{Mem, malloc}
use chat_project.HashMap
use chat_project.HashMap.{HashMap}
use chat_project.HashMap.Buckets.{view, IsValid}
use chat_project.HashMap.Find.{is_some, is_success, find-view, found_result}
use chat_project.HashMap.Insert.{Inserted, insert-Inserted}
use chat_project.HashUtils.Laws.{equal_keys, equal_keys→eq}
use chat_project.Protocol.{ChatStatus, is_ok}
use chat_project.UserMng.{UserMng, User, new_user, insert_user, register, is_online}
use chat_project.UserMng.Sessions.{IsPaired}

-- The pointer that the index of names holds.
abbrev pub user_of : UserMng → Bytes → Option ℕ
user_of mng name = view mng.users_by_name name

-- The index of names is valid, compares strings, and leads to users of that name.
pub record IsIndexed (mng : UserMng) : Type 0 where
  pub valid : IsValid mng.users_by_name
  pub strings : mng.users_by_name.keys_equal_func ≡ equal_keys
  pub named :
      (name : Bytes) (p : ℕ)
      → user_of mng name ≡ some p
      → (user : User) × (get_elem? mng.store p ≡ some user) × (user.username ≡ name)

-- What a registration has done.
pub record Registered (mng : UserMng) (name : Bytes) (status : ChatStatus) (mng' : UserMng)
    : Type 0 where
  pub paired : IsPaired mng'
  pub indexed : IsIndexed mng'
  pub lookup :
      (q : Bytes)
      → user_of mng' q
        ≡ (if is_ok status && equal_keys q name then some (length mng.store) else user_of mng q)
  pub taken : is_some (user_of mng name) ≡ true → (status ≡ ChatStatus.user_exists) × (mng' ≡ mng)
  pub free :
      is_some (user_of mng name) ≡ false
      → (status ≡ ChatStatus.st_ok) ⊎ ((status ≡ ChatStatus.server_full) × (mng'.store ≡ mng.store))

full-Registered :
    (mng : UserMng) (name : Bytes)
    → IsPaired mng
    → IsIndexed mng
    → is_some (user_of mng name) ≡ false
    → Registered mng name ChatStatus.server_full mng
full-Registered mng name w ix absent = record {
  paired = w;
  indexed = ix;
  lookup = λ q. refl;
  taken = λ e. cc;
  free = λ e. inr (refl, refl);
}

-- A user that is offline is put behind the others.
appended-IsPaired :
    (mng : UserMng) (user : User) (map : HashMap Bytes ℕ)
    → IsPaired mng
    → is_online user.state ≡ false
    → user.socket_fd ≡ none
    → IsPaired (record mng { users_by_name = map; store = mng.store ++ user ∷ [] })
appended-IsPaired mng user map w off no_socket =
    let read = get_elem?-snoc mng.store user in
    let end = get_elem?-end mng.store in
    record {
      leads = λ fd q e. ground (arith, read q, w.leads fd q e, end);
      leads_back = λ q fd e. ground (arith, read q, w.leads_back q fd, e, no_socket);
      online = λ q. ground (arith, read q, w.online q, no_socket, off);
    }

appended-IsIndexed :
    (mng : UserMng) (user : User) (map : HashMap Bytes ℕ) (mem mem' : Mem)
    → IsIndexed mng
    → Inserted mng.users_by_name user.username
        (length mng.store)
        mem
        HashMap.MapResult.success
        map
        mem'
    → IsIndexed (record mng { users_by_name = map; store = mng.store ++ user ∷ [] })
appended-IsIndexed mng user map mem mem' ix ins = record {
  valid = ins.valid;
  strings = ins.same_keys ∙ ix.strings;
  named = λ name p e. elim (Bool-cases (equal_keys name user.username)) [
    | inl same ↦
        let here : some (length mng.store) ≡ some p =
          (rw (ap (λ f. f name user.username) ix.strings ∙ same) at (sym (ins.reads name))) ∙ e in
        let q = some-injective _ _ here in
        (
          user,
          subst (λ t. get_elem? (mng.store ++ user ∷ []) t ≡ some user) q
              (get_elem?-snoc mng.store user (length mng.store) ∙ ground arith),
          sym (equal_keys→eq name user.username same),
        )
    | inr other ↦
        let there : user_of mng name ≡ some p =
          (rw (ap (λ f. f name user.username) ix.strings ∙ other) at (sym (ins.reads name))) ∙ e in
        let (old, at, is) = ix.named name p there in
        let inside = get_elem?-inside mng.store p old at in
        (old, get_elem?-snoc mng.store user p ∙ ground (arith, at), is)
  ];
}

-- The fourth step of a registration, for a name that is free.
insert_user-Registered :
    (mng : UserMng) (user : User) (mem : Mem)
    → IsPaired mng
    → IsIndexed mng
    → is_online user.state ≡ false
    → user.socket_fd ≡ none
    → is_some (user_of mng user.username) ≡ false
    → let (status, mng', mem') = insert_user mng user mem in
      Registered mng user.username status mng'
unfolding insert_user
insert_user-Registered mng user mem w ix off no_socket absent =
    let (m', run, ins) =
      insert-Inserted mng.users_by_name user.username (length mng.store) mem ix.valid in
    elim (ins.tried absent) [
      | inl done ↦
          rw (run, done, insert_user)
            (record {
              paired = appended-IsPaired mng user m' w off no_socket;
              indexed = appended-IsIndexed mng user m' mem _ ix (rw done at ins);
              lookup = λ q. rw (done, ap (λ f. f q user.username) ix.strings) at (ins.reads q);
              taken = λ e. cc;
              free = λ e. inl refl;
            })
      | inr failed ↦
          let same : (q : Bytes) → view m' q ≡ user_of mng q = λ q. rw failed at (ins.reads q) in
          rw (run, failed, insert_user)
            (record {
              paired = record { leads = w.leads; leads_back = w.leads_back; online = w.online };
              indexed = record {
                valid = ins.valid;
                strings = ins.same_keys ∙ ix.strings;
                named = λ name p e. ix.named name p (sym (same name) ∙ e);
              };
              lookup = same;
              taken = λ e. cc;
              free = λ e. inr (refl, refl);
            })
    ]

found-some : {V : Type 0} (v : Option V) → is_success (found_result v).0 ≡ is_some v
found-some none = refl
found-some (some x) = refl

-- For a name of at most 32 bytes, a registration keeps the sockets paired and the index of names in
-- order. A name that is taken is refused and nothing changes. A name that is free leads to a new user
-- behind the others, or the server is full; then no user is added and no lookup changes.
pub register-Registered :
    (mng : UserMng) (username password : Bytes) (mem : Mem)
    → IsPaired mng
    → IsIndexed mng
    → length username ≤ 32
    → let (status, mng', mem') = register mng username password mem in
      Registered mng username status mng'
unfolding register
register-Registered mng username password mem w ix short =
    let found : is_success (HashMap.find (some mng.users_by_name) (some username)).0
        ≡ is_some (user_of mng username) =
      ap (λ r. is_success r.0) (find-view mng.users_by_name username ix.valid)
      ∙ found-some (user_of mng username) in
    elim (Bool-cases (is_some (user_of mng username))) [
      | inl there ↦
          rw (found ∙ there, register)
            (record {
              paired = w;
              indexed = ix;
              lookup = λ q. refl;
              taken = λ e. (refl, refl);
              free = λ e. cc;
            })
      | inr absent ↦ elim (Bool-cases (malloc mem).0) [
        | inr no_user ↦
            rw (found ∙ absent, no_user, register) (full-Registered mng username w ix absent)
        | inl got ↦ elim (Bool-cases (malloc (malloc mem).1).0) [
          | inr no_list ↦
              rw (found ∙ absent, got, no_list, register) (full-Registered mng username w ix absent)
          | inl list ↦
              let whole : take 32 username ≡ username = take_all 32 username short in
              let name_free : is_some (user_of mng (take 32 username)) ≡ false =
                ap (λ t. is_some (user_of mng t)) whole ∙ absent in
              rw (found ∙ absent, got, list, register)
                (subst
                  (λ t.
                    let (status, mng', mem') =
                      insert_user mng (new_user username password) (malloc (malloc mem).1).1 in
                    Registered mng t status mng')
                  whole
                  (insert_user-Registered mng (new_user username password) (malloc (malloc mem).1).1
                    w ix refl refl name_free))
        ]
      ]
    ]
