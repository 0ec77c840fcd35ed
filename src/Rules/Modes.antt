-- ===== src/Rules/Modes.antt =====
-- `setMode`, `getMode`, `diffMode` and `diffOperator` of IRC_PROTOCOL_SERVER/src/Channel.cpp
use irc_protocol_server.Base.{
  ℕ, ℤ, int_key, nat_key, text_key, ◌==◌, ◌≡◌, not, ◌&&◌, ◌||◌, List, contains, if◌then◌else◌,
  arith, contains-push_back, ◌≤◌, count, push_new, erase, count-erase, count-push_back,
  contains-count, count-contains,
}
use irc_protocol_server.Channel.{Channel, flag_after, set_mode, diff_mode, get_mode, diff_operator}

-- The letters that a query shows are those of the flags that are set.
pub contains-get_mode :
    (letter : ℕ) (c : Channel) → contains letter (get_mode c) ≡ diff_mode letter c
unfolding diff_mode get_mode contains
contains-get_mode letter c = ground arith

-- No descriptor stands twice among the operators.
abbrev pub DistinctOperators : Channel → Type 0
DistinctOperators c = (fd : ℤ) → count fd c.operator_fd_list ≤ 1

operators_after :
    (fd other : ℤ) (fds : List ℤ)
    → contains other (push_new fd fds) ≡ (fd == other || contains other fds)
unfolding push_new
operators_after fd other fds =
    ground (arith, contains-push_back other fd fds, int_key.beq_iff fd other)

contains-erase :
    (fd other : ℤ) (fds : List ℤ)
    → count other fds ≤ 1
    → contains other (erase fd fds) ≡ (not (fd == other) && contains other fds)
contains-erase fd other fds once = ground (
  arith,
  count-erase other fd fds,
  contains-count other fds,
  count-contains other fds,
  contains-count other (erase fd fds),
  count-contains other (erase fd fds),
)

-- '+o' and '-o' give and take the right of that client, and of no other, where no descriptor stands
-- twice among the operators.
pub diff_operator-set_mode :
    (fd other : ℤ) (sign : ℕ) (c : Channel)
    → DistinctOperators c
    → diff_operator other (set_mode b'o' sign fd c)
      ≡ (if fd == other then flag_after sign (diff_operator other c) else diff_operator other c)
unfolding diff_operator set_mode
diff_operator-set_mode fd other sign c once = ground (
  arith,
  operators_after fd other c.operator_fd_list,
  contains-erase fd other c.operator_fd_list (once other),
)

count-push_new :
    (fd other : ℤ) (fds : List ℤ) → count other fds ≤ 1 → count other (push_new fd fds) ≤ 1
unfolding push_new
count-push_new fd other fds once =
    ground (arith, count-push_back other fd fds, count-contains fd fds, int_key.beq_iff fd other)

-- No mode letter makes a descriptor stand twice among the operators.
pub set_mode-DistinctOperators :
    (mode sign : ℕ) (fd : ℤ) (c : Channel)
    → DistinctOperators c
    → DistinctOperators (set_mode mode sign fd c)
unfolding set_mode
set_mode-DistinctOperators mode sign fd c once other = ground (
  arith,
  once other,
  count-push_new fd other c.operator_fd_list (once other),
  count-erase other fd c.operator_fd_list,
)
