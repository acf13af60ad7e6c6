-- ===== src/Iface.antt =====
-- Setting up the network interface: teavpn_iface_up() and teavpn_iface_down() of
-- src/teavpn2/net/linux/iface.c, what they take from the system, and what they run there.
pub mod Words
pub mod Quote
pub mod Address
pub mod Toggle
use teavpn.Common.{ℕ, Bool, List, Option}

-- What the code takes from the C library and the system: inet_pton() (`none` for a text that is no
-- address) and inet_ntop() on addresses as the processor reads their four bytes, the digits that
-- snprintf() makes of a number, access() on a path, and what `ip route show` prints (`none` if popen()
-- fails).
pub record System : Type 0 where
  pub inet_pton : List ℕ → Option ℕ
  pub inet_ntop : ℕ → Option (List ℕ)
  pub decimal : ℕ → List ℕ
  pub access : List ℕ → Bool
  pub routes : Option (List ℕ)

-- What system() returns for the commands to come, and the commands that it was given, the last first.
-- When the answers are used up no shell can be started.
pub record Shell : Type 0 where
  pub statuses : List ℕ
  pub ran : List (List ℕ)
