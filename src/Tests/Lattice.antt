-- ===== src/Tests/Lattice.antt =====
-- models/transaction.go: a rejected transaction that the network accepts.
use arcade.Prelude.{◌≡◌, refl, arith, contains, string_eq, string_eq}
use arcade.Models.Status.{
  rejected, accepted_by_network, status_eq, is_terminal, can_transition_from,
}
use arcade.Models.Lattice.{terminal_exits, terminal_moves}

terminal_moves_example :
    can_transition_from accepted_by_network rejected
    ≡ contains (terminal_exits rejected) accepted_by_network
unfolding is_terminal
terminal_moves_example =
    terminal_moves rejected accepted_by_network refl refl (λ e. ground (arith, e))
