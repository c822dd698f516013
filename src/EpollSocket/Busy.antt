-- ===== src/EpollSocket/Busy.antt =====
-- A socket of src/epoll_socket.cpp that has a client does not stop.
use ehttp.Base.{◌≡◌, true, is_zero}
use ehttp.EpollSocket.Events
use ehttp.EpollSocket.Loop.{is_stop}
use ehttp.EpollSocket.{EpollSocket}
use ehttp.Std.OrdMap
use ehttp.Std.Order.{nat_ord}

module _ {C : Type 0} where
  -- A socket that stopped has no client.
  abbrev IsQuiet : EpollSocket C → Type 0
  IsQuiet s = is_stop s.status ≡ true → is_zero s.clients ≡ true
