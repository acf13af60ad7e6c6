-- ===== src/Client/Setup/Auth.antt =====
-- How the client's authentication ends.
use teavpn.Client.{Client}
