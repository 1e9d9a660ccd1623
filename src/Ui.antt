-- ===== src/Ui.antt =====
-- The terminal interface of client/ui.c: two screens that read lines and call the client. The input
-- is the bytes that stdin still gives; what is printed is left out. The client's operations are an
-- interface, on a state `S`.
pub mod Line
pub mod Ends
mod Tests
use chat_project.Prelude.{
  ℕ, zero, suc, ◌+◌, ◌-◌, Bool, true, false, Option, none, some, List, [], ◌∷◌, ◌++◌, ◌==◌, not,
  if◌then◌else◌,
}
use chat_project.Memory.{Bytes, c_str}
use chat_project.HashUtils.{str_eq}
use chat_project.Protocol.{
  ChatStatus, is_ok, chat_max_username_len, chat_max_password_len, chat_max_groupname_len,
}

abbrev pub newline : ℕ
newline = 10

-- At most `n` bytes, up to and including a newline, and what follows.
unfoldable pub take_line : ℕ → Bytes → Bytes × Bytes
take_line zero input = ([], input)
take_line (suc n) [] = ([], [])
take_line (suc n) (c ∷ input) =
    let (line, rest) = take_line n input in
    if c == newline then (c ∷ [], input) else (c ∷ line, rest)

-- `fgets(out, cap, stdin)`: the bytes before the NUL that it appends, or `none` for NULL.
abbrev pub fgets : ℕ → Bytes → Option (Bytes × Bytes)
fgets cap [] = none
fgets cap (c ∷ input) = some (take_line (cap - 1) (c ∷ input))

-- The loop that discards the rest of a line.
unfoldable pub drain : Bytes → Bytes
drain [] = []
drain (c ∷ input) = if c == newline then input else drain input

-- `len > 0 && out[len - 1] == '\n'`, and the string without its last byte.
abbrev pub ends_in_newline : Bytes → Bool
ends_in_newline [] = false
ends_in_newline (c ∷ []) = c == newline
ends_in_newline (c ∷ d ∷ s) = ends_in_newline (d ∷ s)

abbrev pub chop : Bytes → Bytes
chop [] = []
chop (c ∷ []) = []
chop (c ∷ d ∷ s) = c ∷ chop (d ∷ s)

-- The string in `out`, and the input behind it; `none` is -1.
unfoldable pub read_line : ℕ → Bytes → Option (Bytes × Bytes)
read_line cap input = elim (fgets cap input) [
  | none ↦ none
  | some t ↦
      let out = c_str t.0 in
      if ends_in_newline out then some (chop out, t.1) else some (out, drain t.1)
]

-- The operations of client/client_mng.c that the screens call.
pub record ClientOps {ℓ} (S : Type ℓ) : Type ℓ where
  pub register : Bytes → Bytes → S → ChatStatus × S
  pub login : Bytes → Bytes → S → ChatStatus × S
  pub logout : S → ChatStatus × S
  pub create_group : Bytes → S → ChatStatus × S
  pub join_group : Bytes → S → ChatStatus × S
  pub leave_group : Bytes → S → ChatStatus × S

abbrev pub is_empty : Bytes → Bool
is_empty [] = true
is_empty (c ∷ s) = false

module _ {ℓ} {S : Type ℓ} (ops : ClientOps S) where
  -- The status, the state and the input after a request with a user name and a password.
  unfoldable pub prompt_and_auth : Bool → S → Bytes → ChatStatus × S × Bytes
  prompt_and_auth is_login s input = elim (read_line (chat_max_username_len + 1) input) [
    | none ↦ (ChatStatus.protocol, s, input)
    | some user ↦ elim (read_line (chat_max_password_len + 1) user.1) [
      | none ↦ (ChatStatus.protocol, s, user.1)
      | some pass ↦
          if is_empty user.0
          then (ChatStatus.protocol, s, pass.1)
          else (let (status, s') =
                if is_login then ops.login user.0 pass.0 s else ops.register user.0 pass.0 s in
              (status, s', pass.1))
    ]
  ]

  -- A request with the name of a group.
  unfoldable pub with_group : (Bytes → S → ChatStatus × S) → S → Bytes → S × Bytes
  with_group request s input = elim (read_line (chat_max_groupname_len + 1) input) [
    | none ↦ (s, input)
    | some group ↦ if is_empty group.0 then (s, group.1) else ((request group.0 s).1, group.1)
  ]

  unfoldable pub do_group_join : Bool → S → Bytes → S × Bytes
  do_group_join is_create = with_group (if is_create then ops.create_group else ops.join_group)

  unfoldable pub do_group_leave : S → Bytes → S × Bytes
  do_group_leave = with_group ops.leave_group

  -- The screen goes on.
  abbrev go_on : S × Bytes → Bool × S × Bytes
  go_on (s, input) = (false, s, input)

  -- What a choice on the second screen does: whether the screen is left, the state and the input.
  unfoldable pub screen2_choice : Bytes → S → Bytes → Bool × S × Bytes
  screen2_choice choice s input =
      if str_eq choice (49 ∷ [])
      then go_on (do_group_join true s input)
      else if str_eq choice (50 ∷ [])
      then go_on (do_group_join false s input)
      else if str_eq choice (51 ∷ [])
      then go_on (do_group_leave s input)
      else if str_eq choice (52 ∷ [])
      then (is_ok (ops.logout s).0, (ops.logout s).1, input)
      else (false, s, input)

  -- The loop of the second screen; `none` is the end of the fuel.
  unfoldable pub screen2 : ℕ → S → Bytes → Option (S × Bytes)
  screen2 zero s input = none
  screen2 (suc fuel) s input = elim (read_line 8 input) [
    | none ↦ some (s, input)
    | some choice ↦
        let (leave, s', rest) = screen2_choice choice.0 s choice.1 in
        let again = screen2 fuel s' rest in if leave then some (s', rest) else again
  ]

  -- The second screen behind a login that has succeeded.
  abbrev pub after_login : ℕ → ChatStatus × S × Bytes → Option (S × Bytes)
  after_login fuel (status, s, input) =
      if is_ok status then screen2 fuel s input else some (s, input)

  -- What a choice on the first screen does: whether the program ends, the state and the input.
  unfoldable pub ui_choice : ℕ → Bytes → S → Bytes → Option (Bool × S × Bytes)
  ui_choice fuel choice s input =
      if str_eq choice (49 ∷ [])
      then (let (status, s', rest) = prompt_and_auth false s input in some (false, s', rest))
      else if str_eq choice (50 ∷ [])
      then elim (after_login fuel (prompt_and_auth true s input)) [
        | none ↦ none
        | some r ↦ some (go_on r)
      ]
      else some (str_eq choice (51 ∷ []), s, input)

  -- The loop of the first screen.
  unfoldable pub ui_run : ℕ → S → Bytes → Option (S × Bytes)
  ui_run zero s input = none
  ui_run (suc fuel) s input = elim (read_line 8 input) [
    | none ↦ some (s, input)
    | some choice ↦ elim (ui_choice fuel choice.0 s choice.1) [
      | none ↦ none
      | some t ↦
          let (leave, s', rest) = t in
          let again = ui_run fuel s' rest in if leave then some (s', rest) else again
    ]
  ]
