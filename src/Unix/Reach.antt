-- ===== src/Unix/Reach.antt =====
-- Every state that the operations of Kernel/Network/Unix.c reach.
use the_os_reborn.Common.{ℕ, Bool, List}
use the_os_reborn.Unix.{Unix, init, create, close, bind, listen, set_non_blocking}
use the_os_reborn.Unix.Transfer.{connect, accept, sendto, recvfrom}
use the_os_reborn.Unix.Inv.{AreSockets}
use the_os_reborn.Unix.Inv.{
  zero_socket-IsSocket, create-AreSockets, close-AreSockets, bind-AreSockets, listen-AreSockets,
  set_non_blocking-AreSockets,
}
use the_os_reborn.Unix.Keep.{accept-AreSockets}
use the_os_reborn.Unix.Moves.{connect-AreSockets, sendto-AreSockets, recvfrom-AreSockets}

-- What any tasks reach by calls in any order. A call that waits goes on in a state `t` that others
-- reached meanwhile.
pub data Reachable : Unix → Type 0 where
  started : (s : Unix) → Reachable (init s)
  created :
      (owner socket_type : ℕ) (s : Unix) → Reachable s → Reachable (create owner socket_type s).0
  closed : (owner id : ℕ) (s : Unix) → Reachable s → Reachable (close owner id s).0
  bound_to :
      (owner id : ℕ) (path : List ℕ) (len : ℕ) (s : Unix)
      → Reachable s
      → Reachable (bind owner id path len s).0
  listened :
      (owner id backlog : ℕ) (s : Unix) → Reachable s → Reachable (listen owner id backlog s).0
  moded :
      (owner id : ℕ) (flag : Bool) (s : Unix)
      → Reachable s
      → Reachable (set_non_blocking owner id flag s).0
  connected_to :
      (owner id : ℕ) (path : List ℕ) (len : ℕ) (force : Bool) (s : Unix)
      → Reachable s
      → Reachable (connect owner id path len force s).0
  accepted :
      (owner id : ℕ) (force : Bool) (s t : Unix)
      → Reachable s
      → Reachable t
      → Reachable (accept (λ x. t) owner id force s).0
  sent_to :
      (owner id : ℕ) (payload dest : List ℕ) (len : ℕ) (s : Unix)
      → Reachable s
      → Reachable (sendto owner id payload dest len s).0
  received_from :
      (owner id room : ℕ) (force : Bool) (s t : Unix)
      → Reachable s
      → Reachable t
      → Reachable (recvfrom (λ x. t) owner id room force s).0

init-AreSockets : (s : Unix) → AreSockets (init s)
unfolding init
init-AreSockets s i = zero_socket-IsSocket

-- In every state that calls of the operations by any tasks reach, in any order, the three rings of
-- every socket (datagrams, stream bytes, connections to accept) lie within their arrays: the head is
-- an index, the count is at most the capacity, and the tail is the index behind the last element.
pub Reachable-AreSockets : (s : Unix) → Reachable s → AreSockets s
Reachable-AreSockets _ (started s) = init-AreSockets s
Reachable-AreSockets _ (created owner socket_type s r) =
    create-AreSockets owner socket_type s (Reachable-AreSockets s r)
Reachable-AreSockets _ (closed owner id s r) =
    close-AreSockets owner id s (Reachable-AreSockets s r)
Reachable-AreSockets _ (bound_to owner id path len s r) =
    bind-AreSockets owner id path len s (Reachable-AreSockets s r)
Reachable-AreSockets _ (listened owner id backlog s r) =
    listen-AreSockets owner id backlog s (Reachable-AreSockets s r)
Reachable-AreSockets _ (moded owner id flag s r) =
    set_non_blocking-AreSockets owner id flag s (Reachable-AreSockets s r)
Reachable-AreSockets _ (connected_to owner id path len force s r) =
    connect-AreSockets owner id path len force s (Reachable-AreSockets s r)
Reachable-AreSockets _ (accepted owner id force s t r q) =
    accept-AreSockets (λ x. t) owner id force s (Reachable-AreSockets s r)
      (Reachable-AreSockets t q)
Reachable-AreSockets _ (sent_to owner id payload dest len s r) =
    sendto-AreSockets owner id payload dest len s (Reachable-AreSockets s r)
Reachable-AreSockets _ (received_from owner id room force s t r q) =
    recvfrom-AreSockets (λ x. t) owner id room force s (Reachable-AreSockets s r)
      (Reachable-AreSockets t q)
