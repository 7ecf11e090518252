-- ===== src/Cli/Ready.antt =====
-- signalReady and awaitChildReady of kettlingar/default_main.go: the readiness pipe between a server
-- and the process that started it.
use kettlingar_go.Prelude.{
  ℕ, ◌≡◌, refl, ap, Bool, true, false, Bytes, [], ◌∷◌, ◌++◌, Bool-cases, inl, inr, if◌then◌else◌,
  codes, Option, none, some,
}
use kettlingar_go.Text.Search.{has_prefix, trim_prefix}
use kettlingar_go.Text.Space.{trim_space, trim_left, trim_right, trim_right-before, is_space}

-- The write end, as the server has it: the variable KETTLINGAR_READY_FD (empty where it is not set),
-- what was written, and whether it is closed.
pub record Pipe : Type 0 where
  pub ready_fd : Bytes
  pub written : Bytes
  pub closed : Bool

-- `is_open` says of which texts Atoi gives a number that os.NewFile takes. The variable is unset
-- before anything is written.
abbrev pub signal_on : (Bytes → Bool) → Bytes → Bytes → Pipe → Pipe
signal_on is_open status [] p = p
signal_on is_open status (c ∷ fd) p =
    let unset : Pipe = record p { ready_fd = [] } in
    if is_open (c ∷ fd)
    then record unset { written = p.written ++ status ++ b'\n' ∷ []; closed = true }
    else unset

unfoldable pub signal_ready : (Bytes → Bool) → Bytes → Pipe → Pipe
signal_ready is_open status p = signal_on is_open status p.ready_fd p

abbrev pub ready_line : Bytes → Option Bytes
ready_line line =
    if has_prefix line (codes "OK")
    then none
    else if has_prefix line (codes "ERR ")
    then some (trim_prefix line (codes "ERR "))
    else some (codes "service exited before it became ready")

-- `read` is what io.ReadAll reads, none where the timeout comes first. The result is the error, none
-- for nil.
unfoldable pub await_child_ready : Option Bytes → Option Bytes
unfolding trim_space
await_child_ready none = some (codes "timed out")
await_child_ready (some read) = ready_line (trim_space read)

pub await_child_ready-ok : await_child_ready (some (codes "OK\n")) ≡ none
unfolding await_child_ready trim_space trim_left trim_right
await_child_ready-ok = refl

pub await_child_ready-nothing :
    await_child_ready (some []) ≡ some (codes "service exited before it became ready")
unfolding await_child_ready trim_space trim_left trim_right
await_child_ready-nothing = refl

-- An error that starts with a letter `c`.
pub await_child_ready-err :
    (c : ℕ) (text : Bytes)
    → is_space c ≡ false
    → await_child_ready (some (codes "ERR " ++ c ∷ text)) ≡ some (c ∷ trim_right text)
unfolding await_child_ready trim_space trim_left
await_child_ready-err c text h = ap ready_line (trim_right-before (codes "ERR ") c text h)

signal_on-unset :
    (is_open : Bytes → Bool) (status fd : Bytes) (p : Pipe)
    → p.ready_fd ≡ fd
    → (signal_on is_open status fd p).ready_fd ≡ []
signal_on-unset is_open status [] p e = e
signal_on-unset is_open status (c ∷ fd) p e = elim (Bool-cases (is_open (c ∷ fd))) [
  | inl h ↦ rw h refl
  | inr h ↦ rw h refl
]

-- Only the first signal counts: any later one does nothing, whatever the first did.
pub signal_ready-signal_ready :
    (is_open : Bytes → Bool) (status later : Bytes) (p : Pipe)
    → signal_ready is_open later (signal_ready is_open status p) ≡ signal_ready is_open status p
unfolding signal_ready
signal_ready-signal_ready is_open status later p =
    let q = signal_on is_open status p.ready_fd p in
    ap (λ fd. signal_on is_open later fd q) (signal_on-unset is_open status p.ready_fd p refl)
