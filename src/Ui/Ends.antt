-- ===== src/Ui/Ends.antt =====
-- The screens of client/ui.c end with their input, and keep what the client's operations keep.
use mathlib.Core.Path.{subst}
use chat_project.Prelude.{
  ℕ, zero, suc, ◌-◌, ◌≤◌, ◌<◌, ◌≡◌, refl, Bool, true, false, Option, none, some, [], ◌∷◌, ◌==◌,
  length, arith, Bool-cases, Option-cases, inl, inr,
}
use chat_project.Memory.{Bytes, c_str}
use chat_project.HashUtils.{str_eq}
use chat_project.Protocol.{ChatStatus, is_ok}
use chat_project.Ui.{
  ClientOps, newline, take_line, drain, ends_in_newline, read_line, is_empty, prompt_and_auth,
  with_group, do_group_join, do_group_leave, screen2_choice, screen2, after_login, ui_choice,
  ui_run,
}

length-drain : (input : Bytes) → length (drain input) ≤ length input
unfolding drain
length-drain [] = omega arith
length-drain (c ∷ input) = ground (arith, length-drain input)

length-take_line : (n : ℕ) (input : Bytes) → length (take_line n input).1 ≤ length input
unfolding take_line
length-take_line zero input = omega arith
length-take_line (suc n) [] = omega arith
length-take_line (suc n) (c ∷ input) = elim (Bool-cases (c == newline)) [
  | inl ends ↦ rw ends (omega arith)
  | inr more ↦ rw more (omega (arith, length-take_line n input))
]

pub length-take_line_lt :
    (n : ℕ) (c : ℕ) (input : Bytes) → 0 < n → length (take_line n (c ∷ input)).1 ≤ length input
unfolding take_line
length-take_line_lt zero c input pos = absurd (omega arith)
length-take_line_lt (suc n) c input pos = elim (Bool-cases (c == newline)) [
  | inl ends ↦ rw ends (omega arith)
  | inr more ↦ rw more (length-take_line n input)
]

-- A line that is read makes the input shorter.
abbrev pub Shorter : Option (Bytes × Bytes) → Bytes → Type 0
Shorter none input = Unit
Shorter (some r) input = length r.1 < length input

read_line-Shorter : (cap : ℕ) (input : Bytes) → 2 ≤ cap → Shorter (read_line cap input) input
unfolding read_line
read_line-Shorter cap [] room = tt
read_line-Shorter cap (c ∷ input) room =
    let out = take_line (cap - 1) (c ∷ input) in
    let shorter = length-take_line_lt (cap - 1) c input (omega arith) in
    elim (Bool-cases (ends_in_newline (c_str out.0))) [
      | inl ends ↦ rw ends (omega (arith, shorter))
      | inr more ↦ rw more (omega (arith, shorter, length-drain out.1))
    ]

read_shorter :
    (cap : ℕ) (input : Bytes) (r : Bytes × Bytes)
    → 2 ≤ cap
    → read_line cap input ≡ some r
    → length r.1 < length input
read_shorter cap input r room e = subst (λ o. Shorter o input) e (read_line-Shorter cap input room)

-- The operations keep `P`.
pub record Keep {ℓ κ} {S : Type ℓ} (ops : ClientOps S) (P : S → Type κ) : Type (ℓ ⊔ κ) where
  pub register : (user pass : Bytes) (s : S) → P s → P (ops.register user pass s).1
  pub login : (user pass : Bytes) (s : S) → P s → P (ops.login user pass s).1
  pub logout : (s : S) → P s → P (ops.logout s).1
  pub create_group : (group : Bytes) (s : S) → P s → P (ops.create_group group s).1
  pub join_group : (group : Bytes) (s : S) → P s → P (ops.join_group group s).1
  pub leave_group : (group : Bytes) (s : S) → P s → P (ops.leave_group group s).1

module _ {ℓ κ} {S : Type ℓ} (ops : ClientOps S) (P : S → Type κ) (keep : Keep ops P) where
  -- The state is in `P`, and the input is no longer than it was.
  abbrev pub Reached : S → Bytes → Bytes → Type κ
  Reached s rest input = P s × (length rest ≤ length input)

  prompt_and_auth-Reached :
      (is_login : Bool) (s : S) (input : Bytes)
      → P s
      → Reached
          (prompt_and_auth ops is_login s input).1
          (prompt_and_auth ops is_login s input).2
          input
  unfolding prompt_and_auth
  prompt_and_auth-Reached is_login s input p = elim (Option-cases (read_line 33 input)) [
    | inl over ↦ rw (over, prompt_and_auth) (p, omega arith)
    | inr (user, got) ↦
        let first = read_shorter 33 input user (omega arith) got in
        elim (Option-cases (read_line 33 user.1)) [
          | inl over ↦ rw (got, over, prompt_and_auth) (p, omega (arith, first))
          | inr (pass, got') ↦
              let second = read_shorter 33 user.1 pass (omega arith) got' in
              elim (Bool-cases (is_empty user.0)) [
                | inl empty ↦
                    rw (got, got', empty, prompt_and_auth) (p, omega (arith, first, second))
                | inr named ↦ elim (Bool-cases is_login) [
                  | inl yes_login ↦
                      rw (got, got', named, yes_login, prompt_and_auth)
                        (keep.login user.0 pass.0 s p, omega (arith, first, second))
                  | inr no_login ↦
                      rw (got, got', named, no_login, prompt_and_auth)
                        (keep.register user.0 pass.0 s p, omega (arith, first, second))
                ]
              ]
        ]
  ]

  with_group-Reached :
      (request : Bytes → S → ChatStatus × S) (s : S) (input : Bytes)
      → ((group : Bytes) (t : S) → P t → P (request group t).1)
      → P s
      → Reached (with_group ops request s input).0 (with_group ops request s input).1 input
  unfolding with_group
  with_group-Reached request s input keeps p = elim (Option-cases (read_line 33 input)) [
    | inl over ↦ rw (over, with_group) (p, omega arith)
    | inr (group, got) ↦
        let first = read_shorter 33 input group (omega arith) got in
        elim (Bool-cases (is_empty group.0)) [
          | inl empty ↦ rw (got, empty, with_group) (p, omega (arith, first))
          | inr named ↦ rw (got, named, with_group) (keeps group.0 s p, omega (arith, first))
        ]
  ]

  screen2_choice-Reached :
      (choice : Bytes) (s : S) (input : Bytes)
      → P s
      → Reached (screen2_choice ops choice s input).1 (screen2_choice ops choice s input).2 input
  unfolding screen2_choice do_group_join do_group_leave
  screen2_choice-Reached choice s input p = elim (Bool-cases (str_eq choice (49 ∷ []))) [
    | inl one ↦ rw one (with_group-Reached ops.create_group s input keep.create_group p)
    | inr not1 ↦ elim (Bool-cases (str_eq choice (50 ∷ []))) [
      | inl two ↦ rw (not1, two) (with_group-Reached ops.join_group s input keep.join_group p)
      | inr not2 ↦ elim (Bool-cases (str_eq choice (51 ∷ []))) [
        | inl three ↦
            rw (not1, not2, three) (with_group-Reached ops.leave_group s input keep.leave_group p)
        | inr not3 ↦ elim (Bool-cases (str_eq choice (52 ∷ []))) [
          | inl four ↦ rw (not1, not2, not3, four) (keep.logout s p, omega arith)
          | inr not4 ↦ rw (not1, not2, not3, not4) (p, omega arith)
        ]
      ]
    ]
  ]

  -- A run that ends, in `P`, with an input that is no longer than it was.
  abbrev pub Ends : Option (S × Bytes) → Bytes → Type (ℓ ⊔ κ)
  Ends run input = (r : S × Bytes) × (run ≡ some r) × Reached r.0 r.1 input

  screen2-Ends :
      (fuel : ℕ) (s : S) (input : Bytes)
      → length input < fuel
      → P s
      → Ends (screen2 ops fuel s input) input
  unfolding screen2
  screen2-Ends zero s input enough p = absurd (omega arith)
  screen2-Ends (suc fuel) s input enough p = elim (Option-cases (read_line 8 input)) [
    | inl over ↦ ((s, input), rw (over, screen2), (p, omega arith))
    | inr (choice, got) ↦
        let shorter = read_shorter 8 input choice (omega arith) got in
        let (p', shrunk) = screen2_choice-Reached choice.0 s choice.1 p in
        let next = screen2_choice ops choice.0 s choice.1 in
        elim (Bool-cases next.0) [
          | inl leave ↦
              ((next.1, next.2), rw (got, leave, screen2), (p', omega (arith, shorter, shrunk)))
          | inr stay ↦
              let (r, run, (p'', rest)) =
                screen2-Ends fuel next.1 next.2 (omega (arith, shorter, shrunk)) p' in
              (r, rw (got, stay, screen2) run, (p'', omega (arith, shorter, shrunk, rest)))
        ]
  ]

  after_login-Ends :
      (fuel : ℕ) (status : ChatStatus) (s : S) (input : Bytes)
      → length input < fuel
      → P s
      → Ends (after_login ops fuel (status, s, input)) input
  after_login-Ends fuel status s input enough p = elim (Bool-cases (is_ok status)) [
    | inl good ↦ rw good (screen2-Ends fuel s input enough p)
    | inr bad ↦ rw bad ((s, input), refl, (p, omega arith))
  ]

  ui_choice-Reached :
      (fuel : ℕ) (choice : Bytes) (s : S) (input : Bytes)
      → length input < fuel
      → P s
      → (t : Bool × S × Bytes) × (ui_choice ops fuel choice s input ≡ some t)
        × Reached t.1 t.2 input
  unfolding ui_choice
  ui_choice-Reached fuel choice s input enough p = elim (Bool-cases (str_eq choice (49 ∷ []))) [
    | inl one ↦
        let (status, s', rest) = prompt_and_auth ops false s input in
        ((false, s', rest), rw one, prompt_and_auth-Reached false s input p)
    | inr not1 ↦ elim (Bool-cases (str_eq choice (50 ∷ []))) [
      | inl two ↦
          let asked = prompt_and_auth ops true s input in
          let (p', shrunk) = prompt_and_auth-Reached true s input p in
          let (r, run, (p'', rest)) =
            after_login-Ends fuel asked.0 asked.1 asked.2 (omega (arith, shrunk)) p' in
          ((false, r.0, r.1), rw (not1, two, run), (p'', omega (arith, shrunk, rest)))
      | inr not2 ↦ ((str_eq choice (51 ∷ []), s, input), rw (not1, not2), (p, omega arith))
    ]
  ]

  -- With more fuel than bytes of input the terminal interface ends, whatever is typed, and the state keeps
  -- every property that all operations of the client keep.
  pub ui_run-Ends :
      (fuel : ℕ) (s : S) (input : Bytes)
      → length input < fuel
      → P s
      → Ends (ui_run ops fuel s input) input
  unfolding ui_run
  ui_run-Ends zero s input enough p = absurd (omega arith)
  ui_run-Ends (suc fuel) s input enough p = elim (Option-cases (read_line 8 input)) [
    | inl over ↦ ((s, input), rw (over, ui_run), (p, omega arith))
    | inr (choice, got) ↦
        let shorter = read_shorter 8 input choice (omega arith) got in
        let (next, chosen, (p', shrunk)) =
          ui_choice-Reached fuel choice.0 s choice.1 (omega (arith, shorter)) p in
        elim (Bool-cases next.0) [
          | inl leave ↦ (
            (next.1, next.2),
            rw (got, chosen, leave, ui_run),
            (p', omega (arith, shorter, shrunk)),
          )
          | inr stay ↦
              let (r, run, (p'', rest)) =
                ui_run-Ends fuel next.1 next.2 (omega (arith, shorter, shrunk)) p' in
              (r, rw (got, chosen, stay, ui_run) run, (p'', omega (arith, shorter, shrunk, rest)))
        ]
  ]
