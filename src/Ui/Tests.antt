-- ===== src/Ui/Tests.antt =====
-- Lines and a short session, for client/ui.c.
use chat_project.Prelude.{ℕ, ◌+◌, ◌%◌, ◌≡◌, refl, none, some, [], ◌∷◌, arith, take, if◌then◌else◌}
use chat_project.Memory.{Bytes, c_str}
use chat_project.Memory.Windows.{IsText}
use chat_project.HashUtils.{str_eq}
use chat_project.Protocol.{ChatStatus}
use chat_project.Ui.{
  ClientOps, take_line, drain, read_line, is_empty, prompt_and_auth, with_group, do_group_join,
  screen2_choice, screen2, ui_choice, ui_run,
}
use chat_project.Ui.Line.{line_of, read_line-line_of}
use chat_project.Ui.Ends.{Keep, Ends, ui_run-Ends}

-- "abc", and "d" on the next line
abbrev two_lines : Bytes
two_lines = 97 ∷ 98 ∷ 99 ∷ 10 ∷ 100 ∷ []

two_lines-IsText : IsText (line_of two_lines)
two_lines-IsText = (ground arith, (ground arith, (ground arith, tt)))

read_line-line_of_example :
    read_line 3 two_lines
    ≡ (if is_empty two_lines then none else some (take 2 (line_of two_lines), drain two_lines))
read_line-line_of_example = read_line-line_of 3 two_lines two_lines-IsText

-- A client that counts its requests by twos and grants them all.
abbrev grant : ℕ → ChatStatus × ℕ
grant n = (ChatStatus.st_ok, n + 2)

abbrev counting : ClientOps ℕ
counting = record {
  register = λ user pass. grant;
  login = λ user pass. grant;
  logout = grant;
  create_group = λ group. grant;
  join_group = λ group. grant;
  leave_group = λ group. grant;
}

abbrev IsEven : ℕ → Type 0
IsEven n = n % 2 ≡ 0

grant-IsEven : (n : ℕ) → IsEven n → IsEven (grant n).1
grant-IsEven n h = omega arith

counting-Keep : Keep counting IsEven
counting-Keep = record {
  register = λ user pass. grant-IsEven;
  login = λ user pass. grant-IsEven;
  logout = grant-IsEven;
  create_group = λ group. grant-IsEven;
  join_group = λ group. grant-IsEven;
  leave_group = λ group. grant-IsEven;
}

-- A login as "a", the group "g", a logout and the end of the program.
abbrev session : Bytes
session = 50 ∷ 10 ∷ 97 ∷ 10 ∷ 98 ∷ 10 ∷ 49 ∷ 10 ∷ 103 ∷ 10 ∷ 52 ∷ 10 ∷ 51 ∷ 10 ∷ []

ui_run-Ends_example : Ends counting IsEven counting-Keep (ui_run counting 15 0 session) session
ui_run-Ends_example =
    ui_run-Ends counting IsEven counting-Keep 15 0 session (omega arith) (omega arith)

three_requests : ui_run counting 15 0 session ≡ some (6, [])
unfolding ui_run ui_choice screen2 screen2_choice prompt_and_auth with_group do_group_join read_line
    take_line drain c_str str_eq
three_requests = refl
