-- ===== src/Net/Slots.antt =====
-- `HandleNewConnection`: the first free slot takes the new client, and no other slot changes.
use chat_project.Prelude.{ℕ, ◌≤◌, false, ◌≡◌, ◌≢◌, true, Option, none, some, List, [], ◌∷◌, ◌++◌}
use chat_project.Net.{ClientState, FdSet, Accepted}

-- All slots are taken.
abbrev pub IsFull : List ClientState → Type 0
IsFull [] = Unit
IsFull (c ∷ cs) = (c.fd ≢ none) × IsFull cs

-- The slots before the first free one, that one, and those behind.
pub record IsPlaced (new_fd : ℕ) (cs cs' : List ClientState) : Type 0 where
  pub before : List ClientState
  pub free : ClientState
  pub behind : List ClientState
  pub taken : IsFull before
  pub is_free : free.fd ≡ none
  pub old : cs ≡ before ++ free ∷ behind
  pub new : cs' ≡ before ++ (record free { fd = some new_fd; len = 0 }) ∷ behind

abbrev Placing : ℕ → List ClientState → Option (List ClientState) → Type 0
Placing new_fd cs none = IsFull cs
Placing new_fd cs (some cs') = IsPlaced new_fd cs cs'

abbrev cons_placed : ClientState → Option (List ClientState) → Option (List ClientState)
cons_placed c none = none
cons_placed c (some cs) = some (c ∷ cs)

-- What becomes of an accepted descriptor.
pub record Admitted (new_fd : ℕ) (cs : List ClientState) (max_fd : ℕ) (fds : FdSet) (a : Accepted)
    : Type 0 where
  pub inside : a.outside ≡ false
  pub closed_full : a.closed ≡ some new_fd → IsFull cs × (a.clients ≡ cs) × (a.master_set ≡ fds)
  pub kept_placed : a.closed ≡ none → IsPlaced new_fd cs a.clients
  pub watched : a.closed ≡ none → a.master_set new_fd ≡ true
  pub others : (fd : ℕ) → fd ≢ new_fd → a.master_set fd ≡ fds fd
  pub max_ge : a.closed ≡ none → (new_fd ≤ a.max_fd) × (max_fd ≤ a.max_fd)
