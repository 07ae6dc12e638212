-- ===== src/Client/Finish.antt =====
-- The handlers of a client can all end.
use go_tunnel.Base.{bytes_eq, nat_eq}
use go_tunnel.GoMap
use go_tunnel.GoMap.{GoMap}
