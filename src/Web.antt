-- ===== src/Web.antt =====
-- web/controllers: the handlers of the web interface that change the tables. Forms has the values
-- of a request, Tunnels, Hosts and Clients the handlers, Users what an ordinary user may do, and
-- Login the login. Pages that are only shown are left out.
pub mod Forms
pub mod Tunnels
pub mod Hosts
pub mod Clients
pub mod Users
pub mod Login
