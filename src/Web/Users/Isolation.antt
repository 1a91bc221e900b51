-- ===== src/Web/Users/Isolation.antt =====
-- web/controllers: what a user who is not the administrator can do to the tunnels of others.
use next_nps.Server.{Server}
use next_nps.Bridge.{Bridge}
use next_nps.Web.Users.{handle, handle}
use next_nps.Base.{nat_eq, bytes_eq}
use next_nps.Base.Int.{ℤ_eq}
